-- ===== src/Store/Autostart.antt =====
-- `verify_autostart`, `assign_autostart` and `revoke_autostart` of src/store/utils.cpp, as they are
-- outside Windows. The table of cron is its lines; `matches exec home` is `std::regex_match` with the
-- pattern of the two paths.
pub mod Laws
use webpier.Base.{String, Bool, true, false, List, [], ◌∷◌, ◌++◌, ◌<>◌, if◌then◌else◌}

-- the line that is added
unfoldable pub reboot_line : String → String → String
reboot_line exec home = "@reboot \"" <> exec <> "\" \"" <> home <> "\""

-- What a loop over the lines leaves: what it has written to the pipe, and `seen`.
pub record Scanned : Type 0 where
  pub os : List String
  pub seen : Bool

module _ (matches : String → String → String → Bool) (exec home : String) where
  unfoldable pub verify_autostart : List String → Bool
  verify_autostart [] = false
  verify_autostart (line ∷ rest) = if matches exec home line then true else verify_autostart rest

  -- the loop of `assign_autostart`, which ends at the first line that matches
  unfoldable pub copy_lines : List String → Scanned
  copy_lines [] = record { os = []; seen = false }
  copy_lines (line ∷ rest) =
      let r = copy_lines rest in
      if matches exec home line
      then record { os = line ∷ []; seen = true }
      else record { os = line ∷ r.os; seen = r.seen }

  -- the table is replaced when the line is not seen
  unfoldable pub assign_autostart : List String → List String
  assign_autostart table =
      let r = copy_lines table in if r.seen then table else r.os ++ (reboot_line exec home ∷ [])

  -- the loop of `revoke_autostart`
  unfoldable pub drop_lines : List String → Scanned
  drop_lines [] = record { os = []; seen = false }
  drop_lines (line ∷ rest) =
      let r = drop_lines rest in
      if matches exec home line
      then record { os = r.os; seen = true }
      else record { os = line ∷ r.os; seen = r.seen }

  unfoldable pub revoke_autostart : List String → List String
  revoke_autostart table = let r = drop_lines table in if r.seen then r.os else table
