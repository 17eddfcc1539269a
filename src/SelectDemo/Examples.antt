-- ===== src/SelectDemo/Examples.antt =====
-- One file of two bytes, and a second round in which every descriptor is ready and gives nothing.
use network_ex.Common.{[], true, ◌==◌, if◌then◌else◌}
use network_ex.Common.Bytes.{Bytes, codes}
use network_ex.SelectDemo.Files.{Round}

abbrev hi : Bytes
hi = codes "hi"

abbrev first : Round
first = record { ready = λ i. i == 3; content = λ i. if i == 3 then hi else [] }

abbrev second : Round
second = record { ready = λ i. true; content = λ i. [] }
