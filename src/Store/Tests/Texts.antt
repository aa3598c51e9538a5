-- ===== src/Store/Tests/Texts.antt =====
-- The theorem about the table of cron.
use webpier.Base.{List, String, true, false, [], ◌∷◌, ◌≡◌}
use webpier.Ptree.Sample.{sample}
use webpier.Map.{string_key}
use webpier.Base.{Bool, ◌==◌, ◌++◌, if◌then◌else◌, eq_refl}
use webpier.Store.Autostart.{reboot_line, verify_autostart, assign_autostart, revoke_autostart}
use webpier.Store.Autostart.Laws.{others, autostart-eq}
open sample use {Text, write}

-- a pattern that matches the line that is added only
abbrev matches : String → String → String → Bool
matches exec home line = line == reboot_line exec home

abbrev table : List String
table = "@daily /usr/bin/true" ∷ []

autostart-eq_example :
    let assigned = assign_autostart matches "/usr/bin/slipway" "/home/amy" table in
    let revoked = revoke_autostart matches "/usr/bin/slipway" "/home/amy" table in
    (assigned ≡ (
      if verify_autostart matches "/usr/bin/slipway" "/home/amy" table
      then table
      else table ++ (reboot_line "/usr/bin/slipway" "/home/amy" ∷ [])))
    × (revoked ≡ others matches "/usr/bin/slipway" "/home/amy" table)
    × (verify_autostart matches "/usr/bin/slipway" "/home/amy" assigned ≡ true)
    × (verify_autostart matches "/usr/bin/slipway" "/home/amy" revoked ≡ false)
    × (revoke_autostart matches "/usr/bin/slipway" "/home/amy" assigned ≡ revoked)
autostart-eq_example =
    autostart-eq matches "/usr/bin/slipway" "/home/amy" table
      (eq_refl (reboot_line "/usr/bin/slipway" "/home/amy"))
