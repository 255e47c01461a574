-- ===== src/Fec/Examples.antt =====
-- Erasure coding at concrete values.
use tzap.Prelude.{ℕ, ◌≡◌, refl, arith, List, [], ◌∷◌, some, none}
use tzap.Prelude.Bytes.{to_le, from_le}
use tzap.Format.{ok, err, fec_too_few_available_shards}
use tzap.Fec.Field.{Gf16Tables, gf16_mul_slow}
use tzap.Fec.Repair.{Shard, repair_with, recover_with, concat}
use tzap.Fec.Repair.Recovery.{IsRecovered, recover_with-IsRecovered, recover-repair_with}

-- The reduction by x^16 + x^12 + x^3 + x + 1.
reduced : gf16_mul_slow 2 0x8000 ≡ 0x100b
unfolding gf16_mul_slow
reduced = refl

-- The tables where one is the only number that has a logarithm.
abbrev unit_tables : Gf16Tables
unit_tables = record { log = λ _. 0; exp = λ _. 1 }

-- One shard of data, which is lost, and a shard of parity.
abbrev lost_data : List Shard
lost_data = none ∷ []

abbrev parity : List Shard
parity = none ∷ some (5 ∷ 6 ∷ []) ∷ []

abbrev repaired : List (List ℕ)
repaired = (5 ∷ 6 ∷ []) ∷ []

lost_repaired : repair_with unit_tables lost_data parity 2 ≡ ok repaired
unfolding repair_with to_le from_le
lost_repaired = refl

nothing_there : repair_with unit_tables lost_data lost_data 2 ≡ err fec_too_few_available_shards
unfolding repair_with
nothing_there = refl

lost_recovered : recover_with unit_tables lost_data parity 2 ≡ ok (5 ∷ 6 ∷ [])
unfolding recover_with to_le from_le
lost_recovered = refl

recover_with-IsRecovered_example : IsRecovered lost_data parity 2 (5 ∷ 6 ∷ [])
recover_with-IsRecovered_example =
    recover_with-IsRecovered unit_tables lost_data parity 2 (5 ∷ 6 ∷ []) lost_recovered

recover-repair_with_example : recover_with unit_tables lost_data parity 2 ≡ ok (concat repaired)
recover-repair_with_example =
    recover-repair_with unit_tables lost_data parity 2 repaired (omega arith) lost_repaired
