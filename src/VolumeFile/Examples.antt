-- ===== src/VolumeFile/Examples.antt =====
-- Names at concrete values.
use tzap.Prelude.{◌≡◌, refl, arith, ℕ, List, [], ◌∷◌, some, none}
use tzap.Prelude.Bytes.{bytes_eq, starts_with}
use tzap.VolumeFile.{parse_volume_file_name, volume_file_name}
use tzap.VolumeFile.RoundTrip.{parse_volume_file_name-volume_file_name}

-- b.vol
abbrev base_sample : List ℕ
base_sample = 98 ∷ 46 ∷ 118 ∷ 111 ∷ 108 ∷ []

-- b.vol.vol012.tzap, b.vol.vol012.TZAP and b.tzap
volume_name :
    volume_file_name base_sample 12
    ≡ 98 ∷ 46 ∷ 118 ∷ 111 ∷ 108 ∷ 46 ∷ 118 ∷ 111 ∷ 108 ∷ 48 ∷ 49 ∷ 50 ∷ 46 ∷ 116 ∷ 122 ∷ 97 ∷ 112
      ∷ []
unfolding volume_file_name
volume_name = refl

upper_case :
    parse_volume_file_name (98 ∷ 46 ∷ 118 ∷ 111 ∷ 108 ∷ 49 ∷ 50 ∷ 46 ∷ 84 ∷ 90 ∷ 65 ∷ 80 ∷ [])
    ≡ some (record { base = 98 ∷ []; volume_index = 12 })
unfolding parse_volume_file_name bytes_eq starts_with
upper_case = refl

no_volume : parse_volume_file_name (98 ∷ 46 ∷ 116 ∷ 122 ∷ 97 ∷ 112 ∷ []) ≡ none
unfolding parse_volume_file_name bytes_eq starts_with
no_volume = refl

parse_volume_file_name-volume_file_name_example :
    parse_volume_file_name (volume_file_name base_sample 1234)
    ≡ some (record { base = base_sample; volume_index = 1234 })
parse_volume_file_name-volume_file_name_example =
    parse_volume_file_name-volume_file_name base_sample 1234 (omega arith) (omega arith)
