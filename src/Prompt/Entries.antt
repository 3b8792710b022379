-- ===== src/Prompt/Entries.antt =====
-- `History::add` of src/api/prompt.rs.
pub mod Laws
use moros.Prelude.{
  ℕ, ◌-◌, ◌<◌, ◌≡◌, Bool, true, false, ◌&&◌, List, [], ◌∷◌, ◌++◌, length, drop, ◌==◌, if◌then◌else◌,
}
use moros.Prompt.{Text, History}

-- `==` of strings
unfoldable pub same_text : Text → Text → Bool
same_text [] [] = true
same_text [] (d ∷ ds) = false
same_text (c ∷ cs) [] = false
same_text (c ∷ cs) (d ∷ ds) = c == d && same_text cs ds

-- The loop that removes the entries equal to `entry`.
unfoldable pub remove_duplicates : Text → List Text → List Text
unfolding same_text
remove_duplicates entry [] = []
remove_duplicates entry (e ∷ es) =
    let rest = remove_duplicates entry es in if same_text e entry then rest else e ∷ rest

-- The loop that removes the oldest entries.
unfoldable pub remove_oldest : ℕ → List Text → List Text
remove_oldest limit entries = drop (length entries - limit) entries

unfoldable pub add : Text → History → History
unfolding remove_duplicates remove_oldest
add entry h = record h {
  entries = remove_oldest h.limit (remove_duplicates entry h.entries ++ entry ∷ []);
}
