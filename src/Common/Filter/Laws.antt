-- ===== src/Common/Filter/Laws.antt =====
-- FilterNodes computes with the names of nodes as sets: adopt is claimed but not matched, match is
-- both, release is matched but not claimed.
use mathlib.Core.Logic.{∥∥₁_elim}
use mathlib.Core.Bool.{Bool-set}
use mathlib.Core.List.{Perm, Permᴰ, perm_middle}
use mathlib.Core.List.Perm
use mathlib.Core.List.Permᴰ
use accelerator_config_manag.Prelude.{
  String, Bool, false, ◌&&◌, ◌||◌, not, ◌==◌, ◌≡◌, refl, ◌∙◌, List, [], ◌∷◌, ◌++◌, map, arith,
  eq_iff, Bool-cases, inl, inr,
}
use accelerator_config_manag.Prelude.Dict.{
  Dict, lookup, insert, erase, has, lookup-insert, lookup-erase, lookup-nil,
}
use accelerator_config_manag.Api.Meta.{Node}
use accelerator_config_manag.Common.Filter.{fill_claims, split_matches, filter_nodes}

-- A node of that name is in the list.
unfoldable pub named : String → List Node → Bool
named k [] = false
named k (node ∷ nodes) = node.name == k || named k nodes

-- No name stands twice.
abbrev pub UniqueNames : List Node → Type 0
UniqueNames [] = Unit
UniqueNames (node ∷ nodes) = (named node.name nodes ≡ false) × UniqueNames nodes

has-fill_claims :
    (k : String) (nodes : List Node) (claims : Dict Node)
    → has k (fill_claims nodes claims) ≡ (named k nodes || has k claims)
unfolding fill_claims named
has-fill_claims k [] claims = refl
has-fill_claims k (node ∷ nodes) claims =
    has-fill_claims k nodes _ ∙ rw lookup-insert (ground arith)

module _ (k : String) where
  -- Names that are not matched keep their entries, and the others lose them.
  has-split_matches :
      (claims : Dict Node) (nodes : List Node)
      → has k (split_matches claims nodes).2 ≡ (has k claims && not (named k nodes))
  unfolding split_matches named
  has-split_matches claims [] = ground arith
  has-split_matches claims (node ∷ nodes) = ground (
    arith,
    has-split_matches claims nodes,
    has-split_matches (erase node.name claims) nodes,
    lookup-erase k node.name claims,
    eq_iff node.name k,
  )

  named-matched :
      (claims : Dict Node) (nodes : List Node)
      → UniqueNames nodes
      → named k (split_matches claims nodes).0 ≡ (has k claims && named k nodes)
  unfolding split_matches named
  named-matched claims [] u = ground arith
  named-matched claims (node ∷ nodes) (fresh, u) = ground (
    arith,
    named-matched claims nodes u,
    named-matched (erase node.name claims) nodes u,
    lookup-erase k node.name claims,
    eq_iff node.name k,
  )

  named-released :
      (claims : Dict Node) (nodes : List Node)
      → UniqueNames nodes
      → named k (split_matches claims nodes).1 ≡ (not (has k claims) && named k nodes)
  unfolding split_matches named
  named-released claims [] u = ground arith
  named-released claims (node ∷ nodes) (fresh, u) = ground (
    arith,
    named-released claims nodes u,
    named-released (erase node.name claims) nodes u,
    lookup-erase k node.name claims,
    eq_iff node.name k,
  )

-- Every entry stands under the name of its node.
abbrev IsKeyed : Dict Node → Type 0
IsKeyed [] = Unit
IsKeyed ((k, node) ∷ claims) = (k ≡ node.name) × IsKeyed claims

abbrev values : Dict Node → List Node
values = map (λ (_, node). node)

insert-IsKeyed :
    (node : Node) (claims : Dict Node) → IsKeyed claims → IsKeyed (insert node.name node claims)
unfolding insert
insert-IsKeyed node [] h = (refl, tt)
insert-IsKeyed node ((k, n) ∷ claims) (e, h) =
    ground (arith, eq_iff k node.name, insert-IsKeyed node claims h)

erase-IsKeyed : (k : String) (claims : Dict Node) → IsKeyed claims → IsKeyed (erase k claims)
unfolding erase
erase-IsKeyed k [] h = tt
erase-IsKeyed k ((j, n) ∷ claims) (e, h) = ground (arith, erase-IsKeyed k claims h)

fill_claims-IsKeyed :
    (nodes : List Node) (claims : Dict Node) → IsKeyed claims → IsKeyed (fill_claims nodes claims)
unfolding fill_claims
fill_claims-IsKeyed [] claims h = h
fill_claims-IsKeyed (node ∷ nodes) claims h =
    fill_claims-IsKeyed nodes _ (insert-IsKeyed node claims h)

split_matches-IsKeyed :
    (claims : Dict Node) (nodes : List Node)
    → IsKeyed claims
    → IsKeyed (split_matches claims nodes).2
unfolding split_matches
split_matches-IsKeyed claims [] h = h
split_matches-IsKeyed claims (node ∷ nodes) h = ground (
  arith,
  split_matches-IsKeyed claims nodes h,
  erase-IsKeyed node.name claims h,
  split_matches-IsKeyed (erase node.name claims) nodes,
)

named-values :
    (k : String) (claims : Dict Node) → IsKeyed claims → named k (values claims) ≡ has k claims
unfolding named lookup
named-values k [] h = refl
named-values k ((j, node) ∷ claims) (e, h) = ground (arith, named-values k claims h)

named-perm : (k : String) (xs ys : List Node) → Permᴰ xs ys → named k xs ≡ named k ys
unfolding named
named-perm k xs ys Permᴰ.nil = refl
named-perm k xs ys (Permᴰ.cons e p) = ground (arith, named-perm k _ _ p)
named-perm k xs ys (Permᴰ.swap e f) = ground arith
named-perm k xs ys (Permᴰ.trans p q) = named-perm k _ _ p ∙ named-perm k _ _ q

-- Every matched node is in exactly one of match and release.
perm-split_matches :
    (claims : Dict Node) (nodes : List Node)
    → Perm ((split_matches claims nodes).0 ++ (split_matches claims nodes).1) nodes
unfolding split_matches
perm-split_matches claims [] = Perm.refl []
perm-split_matches claims (node ∷ nodes) = elim (Bool-cases (has node.name claims)) [
  | inl e ↦ rw e (Perm.cons node (perm-split_matches (erase node.name claims) nodes))
  | inr e ↦ rw e (
      Perm.trans (perm_middle (split_matches claims nodes).0 (split_matches claims nodes).1)
        (Perm.cons node (perm-split_matches claims nodes)))
]

claimed : (nodes : List Node) (k : String) → has k (fill_claims nodes []) ≡ named k nodes
claimed nodes k = has-fill_claims k nodes [] ∙ rw lookup-nil (ground arith)

module _ (visit : Dict Node → Dict Node) (visits : (m : Dict Node) → Perm (visit m) m) where
  named-visit : (k : String) (m : Dict Node) → IsKeyed m → named k (values (visit m)) ≡ has k m
  named-visit k m h =
      ∥∥₁_elim (visits m) (Bool-set _ _) λ p. named-perm k _ _ (Permᴰ.map _ p) ∙ named-values k m h

  -- When the matched nodes have different names and a range loop visits every entry once, a node is
  -- adopted if it is claimed and not matched, kept if it is both and released if it is matched and
  -- not claimed; the nodes kept and those released are together the matched nodes.
  pub filter_nodes_lem :
      (claim_nodes match_nodes : List Node)
      → UniqueNames match_nodes
      → (let f = filter_nodes visit claim_nodes match_nodes in
          ((k : String)
            → (named k f.adopt ≡ (named k claim_nodes && not (named k match_nodes)))
              × (named k f.match_ ≡ (named k claim_nodes && named k match_nodes))
              × (named k f.release ≡ (named k match_nodes && not (named k claim_nodes))))
          × Perm (f.match_ ++ f.release) match_nodes)
  unfolding filter_nodes
  filter_nodes_lem claim_nodes match_nodes u = (
    (λ k.
        let m = fill_claims claim_nodes [] in
        let keyed = split_matches-IsKeyed m match_nodes (fill_claims-IsKeyed claim_nodes [] tt) in
        (
          ground (
            arith,
            claimed claim_nodes k,
            named-visit k (split_matches m match_nodes).2 keyed,
            has-split_matches k m match_nodes,
          ),
          ground (arith, claimed claim_nodes k, named-matched k m match_nodes u),
          ground (arith, claimed claim_nodes k, named-released k m match_nodes u),
        )),
    perm-split_matches (fill_claims claim_nodes []) match_nodes,
  )
