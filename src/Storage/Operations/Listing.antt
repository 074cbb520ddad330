-- ===== src/Storage/Operations/Listing.antt =====
-- What the listings of objects and of prefixes return.
use automq_operator.Base.{String, Bool, not, nat_eq, length, Option, some, List, ◌≡◌, map}

-- The first page of a listing of these names, of which `rest` does not fit.
abbrev pub IsFirstPage : List (Option String) → Option Bool → List String → List String → Type 0
IsFirstPage names truncated page rest =
    (names ≡ map some page) × (truncated ≡ some (not (nat_eq (length rest) 0)))
