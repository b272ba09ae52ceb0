-- ===== src/Config/Tests.antt =====
-- The configuration reader on concrete inputs.
use monitor_system.Base.{◌≡◌, refl, codes, some, ok, [], ◌∷◌, arith, All}
use monitor_system.Config.{get_conf_value, scan, lines_of, store, setting, chomp}
use monitor_system.Offline.{until_nul}
use monitor_system.Config.LastWins.{IsOther, last_setting_wins}
use monitor_system.Offline.Lines.{text_of}

IsOther-token : All (IsOther (codes "P")) (codes "TOKEN=a" ∷ [])
IsOther-token = (λ v e. ground (arith, e), _)

last_setting_wins_example :
    get_conf_value (some (text_of (codes "P=1" ∷ codes "P=20" ∷ codes "TOKEN=a" ∷ []))) (codes "P")
    ≡ ok (some (codes "20"))
last_setting_wins_example =
    last_setting_wins (codes "P") (codes "20") (codes "P=1" ∷ []) (codes "TOKEN=a" ∷ [])
      (omega arith) (omega arith) (omega arith) (omega arith) (omega arith) IsOther-token

-- An empty value is fine on a line with a newline.
ended_empty_value : get_conf_value (some (text_of (codes "P=" ∷ []))) (codes "P") ≡ ok (some [])
unfolding get_conf_value scan lines_of store setting chomp until_nul
ended_empty_value = refl
