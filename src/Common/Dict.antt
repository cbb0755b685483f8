-- ===== src/Common/Dict.antt =====
-- `HashMap` with text keys, as an association list: where an operation
-- iterates over a map, the order is the list's. Clients use the laws.
use idnx.Common.{
  Text, ◌≡◌, Option, none, some, List, [], ◌∷◌, arith, text_eq, text_eq_iff, if◌then◌else◌,
}

abbrev pub Dict {ℓ} : Type ℓ → Type ℓ
Dict V = List (Text × V)

module _ {ℓ} {V : Type ℓ} where
  -- `get`, and `contains_key` by `is_some`.
  unfoldable pub get : Dict V → Text → Option V
  get [] k = none
  get ((j, v) ∷ d) k = if text_eq j k then some v else get d k

  unfoldable pub remove : Dict V → Text → Dict V
  remove [] k = []
  remove ((j, v) ∷ d) k = let rest = remove d k in if text_eq j k then rest else (j, v) ∷ rest

  unfoldable pub insert : Dict V → Text → V → Dict V
  unfolding remove
  insert d k v = (k, v) ∷ remove d k

  -- `get_mut` or `entry`, and an assignment: an entry that is there keeps its place.
  unfoldable pub put : Dict V → Text → V → Dict V
  put [] k v = (k, v) ∷ []
  put ((j, w) ∷ d) k v = let rest = put d k v in if text_eq j k then (j, v) ∷ d else (j, w) ∷ rest

  pub get-remove :
      (d : Dict V) (k j : Text) → get (remove d k) j ≡ (if text_eq k j then none else get d j)
  unfolding get remove
  get-remove [] k j = ground arith
  get-remove ((i, v) ∷ d) k j =
      ground (arith, get-remove d k j, text_eq_iff i k, text_eq_iff i j, text_eq_iff k j)

  pub get-insert :
      (d : Dict V) (k j : Text) (v : V)
      → get (insert d k v) j ≡ (if text_eq k j then some v else get d j)
  unfolding get insert
  get-insert d k j v = ground (arith, get-remove d k j)

  pub get-put :
      (d : Dict V) (k : Text) (v : V) (j : Text)
      → get (put d k v) j ≡ (if text_eq k j then some v else get d j)
  unfolding get put
  get-put [] k v j = ground arith
  get-put ((i, w) ∷ d) k v j =
      ground (arith, get-put d k v j, text_eq_iff i k, text_eq_iff i j, text_eq_iff k j)
