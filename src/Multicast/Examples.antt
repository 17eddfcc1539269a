-- ===== src/Multicast/Examples.antt =====
-- A process that reads, whose `recvfrom` gives two empty datagrams and then fails.
use network_ex.Common.{none, some, [], ◌∷◌, true, arith}
use network_ex.Common.Bytes.{codes}
use network_ex.Multicast.Channel.{Kernel, child, multicast_main}
use network_ex.Multicast.Silence.{IsSilent, multicast_silent}

abbrev kernel : Kernel
kernel = record {
  first_socket = some 3;
  joins = λ fd. true;
  reuses = λ fd. true;
  binds = λ fd. true;
  second_socket = some 4;
  forks = child;
  leaves = λ fd. true;
  receives = λ fd. some [] ∷ some [] ∷ none ∷ [];
  typed = [];
}

multicast_silent_example : IsSilent kernel child (multicast_main (codes "alan") kernel)
multicast_silent_example = multicast_silent (codes "alan") kernel (omega arith)
