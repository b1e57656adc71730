-- ===== src/Common/Filter/Kept.antt =====
-- What holds of all nodes that FilterNodes is given holds of all nodes that it returns.
use mathlib.Core.Logic.{∥∥₁_elim}
use mathlib.Core.Bool.{Bool-set}
use mathlib.Core.List.{Perm, Permᴰ}
use accelerator_config_manag.Prelude.{
  String, Bool, true, ◌&&◌, List, [], ◌∷◌, map, ◌≡◌, refl, ◌∙◌, arith, Bool-cases, inl, inr,
}
use accelerator_config_manag.Prelude.Dict.{Dict, insert, erase, has}
use accelerator_config_manag.Prelude.GoMap.{is_made}
use accelerator_config_manag.Api.Meta.{Node}
use accelerator_config_manag.Common.Filter.{fill_claims, split_matches, filter_nodes}

abbrev pub all : (Node → Bool) → List Node → Bool
all p [] = true
all p (node ∷ nodes) = p node && all p nodes

-- A node whose labels are not nil.
abbrev pub has_labels : Node → Bool
has_labels node = is_made node.labels

module _ (p : Node → Bool) where
  abbrev all_values : Dict Node → Bool
  all_values claims = all p (map (λ (_, node). node) claims)

  insert-all :
      (k : String) (node : Node) (claims : Dict Node)
      → p node ≡ true
      → all_values claims ≡ true
      → all_values (insert k node claims) ≡ true
  unfolding insert
  insert-all k node [] h a = ground arith
  insert-all k node ((j, n) ∷ claims) h a = ground (arith, insert-all k node claims h)

  erase-all :
      (k : String) (claims : Dict Node)
      → all_values claims ≡ true
      → all_values (erase k claims) ≡ true
  unfolding erase
  erase-all k [] a = refl
  erase-all k ((j, n) ∷ claims) a = ground (arith, erase-all k claims)

  fill_claims-all :
      (nodes : List Node) (claims : Dict Node)
      → all p nodes ≡ true
      → all_values claims ≡ true
      → all_values (fill_claims nodes claims) ≡ true
  unfolding fill_claims
  fill_claims-all [] claims h a = a
  fill_claims-all (node ∷ nodes) claims h a =
      fill_claims-all nodes (insert node.name node claims) (ground arith)
        (insert-all node.name node claims (ground arith) a)

  split_matches-all :
      (claims : Dict Node) (nodes : List Node)
      → all p nodes ≡ true
      → all_values claims ≡ true
      → (all p (split_matches claims nodes).0 ≡ true)
        × (all p (split_matches claims nodes).1 ≡ true)
        × (all_values (split_matches claims nodes).2 ≡ true)
  unfolding split_matches
  split_matches-all claims [] h a = (refl, refl, a)
  split_matches-all claims (node ∷ nodes) h a = elim (Bool-cases (has node.name claims)) [
    | inl e ↦
        let (x, y, z) =
          split_matches-all (erase node.name claims) nodes (ground arith)
            (erase-all node.name claims a) in
        rw e (ground arith, y, z)
    | inr e ↦
        let (x, y, z) = split_matches-all claims nodes (ground arith) a in rw e (x, ground arith, z)
  ]

  all-perm : (xs ys : Dict Node) → Permᴰ xs ys → all_values xs ≡ all_values ys
  all-perm xs ys Permᴰ.nil = refl
  all-perm xs ys (Permᴰ.cons e q) = ground (arith, all-perm _ _ q)
  all-perm xs ys (Permᴰ.swap e f) = ground arith
  all-perm xs ys (Permᴰ.trans q r) = all-perm _ _ q ∙ all-perm _ _ r

  -- Where a range loop visits every entry once.
  pub filter_nodes-all :
      (visit : Dict Node → Dict Node) (visits : (m : Dict Node) → Perm (visit m) m)
      (claim_nodes match_nodes : List Node)
      → all p claim_nodes ≡ true
      → all p match_nodes ≡ true
      → (let f = filter_nodes visit claim_nodes match_nodes in
          (all p f.adopt ≡ true) × (all p f.match_ ≡ true) × (all p f.release ≡ true))
  unfolding filter_nodes
  filter_nodes-all visit visits claim_nodes match_nodes h g =
      let m = fill_claims claim_nodes [] in
      let (x, y, z) = split_matches-all m match_nodes g (fill_claims-all claim_nodes [] h refl) in
      (
        ∥∥₁_elim (visits (split_matches m match_nodes).2) (Bool-set _ _) (λ q. all-perm _ _ q ∙ z),
        x,
        y,
      )
