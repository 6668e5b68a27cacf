-- ===== src/FdManager/Tests.antt =====
-- The first context of a vector of two places.
use sylar_from_scratch.Base.{ℕ, [], ◌∷◌, some, none, ◌==◌, if◌then◌else◌, or_else, ◌≡◌, true, arith}
use sylar_from_scratch.FdManager.{fd_ctx, FdManager, data_at, get}
use sylar_from_scratch.FdManager.Table.{IsValid, get_lem}

abbrev two_places : FdManager
two_places = none ∷ none ∷ []

two_places-IsValid : IsValid two_places
unfolding IsValid
two_places-IsValid = omega arith

get_lem_example :
    let ctx = or_else (fd_ctx 7 (some true)) (data_at two_places 7) in
    (m' : FdManager) × (get (some true) (some 7) true two_places ≡ some (some ctx, m'))
    × IsValid m'
    × ((k : ℕ) → data_at m' k ≡ (if k == 7 then some ctx else data_at two_places k))
get_lem_example = get_lem (some true) 7 two_places two_places-IsValid
