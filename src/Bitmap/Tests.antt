-- ===== src/Bitmap/Tests.antt =====
-- Runs of the bitmap, and its properties at concrete bitmaps.
use faas_share.Common.{◌≡◌, refl, false, [], ◌∷◌, arith, pos}
use faas_share.Bitmap.{
  Bitmap64, full_word, is_masked, mask, scan_word, find_next_and_set, RrBitmap,
  find_next_from_current_and_set,
}
use faas_share.Common.{ℕ, List, some, All, ◌<◌}
use faas_share.Bitmap.{new_rr}
use faas_share.Bitmap.Leases.{
  Request, acquire, release, Leases, holds, Distinct, serve_all, serve_all-new,
}
use faas_share.Bitmap.Laws.{find_next_and_set-lowest}
use faas_share.Bitmap.RoundRobin.{Answer, find_next_from_current_and_set-Answer}

-- The first word is full, and the second has its lowest two bits set.
abbrev nearly_full : Bitmap64
nearly_full = record { bits = full_word ∷ 3 ∷ [] }

abbrev two_of_four : RrBitmap
two_of_four = record { bitmap = record { bits = 9 ∷ [] }; l = 4; current = 3 }

next_is_66 : (find_next_and_set nearly_full).1 ≡ 66
unfolding find_next_and_set is_masked mask scan_word
next_is_66 = refl

wraps_to_one : (find_next_from_current_and_set two_of_four).1 ≡ pos 1
unfolding find_next_from_current_and_set is_masked
wraps_to_one = refl

find_next_and_set-lowest_example : is_masked nearly_full (find_next_and_set nearly_full).1 ≡ false
find_next_and_set-lowest_example = (find_next_and_set-lowest nearly_full).0

find_next_from_current_and_set-Answer_example :
    Answer two_of_four (find_next_from_current_and_set two_of_four)
find_next_from_current_and_set-Answer_example =
    find_next_from_current_and_set-Answer two_of_four (omega arith)

-- Three ports are taken of two, one is given back and taken again.
abbrev requests : List Request
requests = acquire ∷ acquire ∷ acquire ∷ release 0 ∷ acquire ∷ []

abbrev Served : Type 0
Served =
    (s : Leases) × (serve_all requests (record { ports = new_rr 2; held = [] }) ≡ some s)
    × ((q : ℕ) → is_masked s.ports.bitmap q ≡ holds s.held q)
    × Distinct s.held
    × All (λ k. k < 2) s.held

serve_all-new_example : Served
serve_all-new_example = serve_all-new 2 requests
