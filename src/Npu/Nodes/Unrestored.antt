-- ===== src/Npu/Nodes/Unrestored.antt =====
-- The nodes that ReleaseNodes of internal/controller/npunodepolicy_controller.go waits for.
use accelerator_config_manag.Prelude.{
  String, Bool, true, false, List, [], ◌∷◌, ◌≡◌, refl, sym, ap, Bool-cases, inl, inr, arith,
  if◌then◌else◌,
}
use accelerator_config_manag.Prelude.GoMap.{GoMap}
use accelerator_config_manag.Prelude.Run.{ok, ok-injective}
use accelerator_config_manag.Prelude.Eff.{>>=-eq-ok}
use accelerator_config_manag.Api.Meta.{Node}
use accelerator_config_manag.Common.Client.{NodeClient}
use accelerator_config_manag.Common.Client.Labelled.{AllFresh}
use accelerator_config_manag.Common.Filter.Laws.{UniqueNames, named}
use accelerator_config_manag.Npu.Controls.{remove_all_npu_mode_labels}
use accelerator_config_manag.Npu.Nodes.{is_restored, release_node, release_loop}

-- The nodes that their daemons have not restored.
unfoldable pub unrestored : List Node → List Node
unrestored [] = []
unrestored (node ∷ nodes) =
    let rest = unrestored nodes in if is_restored node then rest else node ∷ rest

abbrev pub is_some_node : List Node → Bool
is_some_node [] = false
is_some_node (node ∷ nodes) = true

pub named-unrestored :
    (k : String) (nodes : List Node) → named k nodes ≡ false → named k (unrestored nodes) ≡ false
unfolding named unrestored
named-unrestored k [] h = refl
named-unrestored k (node ∷ nodes) h = ground (arith, named-unrestored k nodes)

pub unrestored-UniqueNames :
    (nodes : List Node) → UniqueNames nodes → UniqueNames (unrestored nodes)
unfolding unrestored
unrestored-UniqueNames [] u = tt
unrestored-UniqueNames (node ∷ nodes) (fresh, u) =
    ground (arith, unrestored-UniqueNames nodes u, named-unrestored node.name nodes fresh)

pub unrestored-AllFresh :
    {S : Type 0} (labels_at : String → S → GoMap String) (s : S) (nodes : List Node)
    → AllFresh labels_at s nodes
    → AllFresh labels_at s (unrestored nodes)
unfolding unrestored
unrestored-AllFresh labels_at s [] f = tt
unrestored-AllFresh labels_at s (node ∷ nodes) (f, fs) = elim (Bool-cases (is_restored node)) [
  | inl r ↦ rw r (unrestored-AllFresh labels_at s nodes fs)
  | inr r ↦ rw r (f, unrestored-AllFresh labels_at s nodes fs)
]

module _ {S : Type 0} (client : NodeClient S) where
  -- Whether a node is waited for, also where the write to it fails.
  release_node-waits :
      (node : Node) (requeue : Bool) (errs : List String) (s t : S)
      → is_restored node ≡ false
      → release_node client node s ≡ (ok (requeue, errs), t)
      → requeue ≡ true
  unfolding release_node
  release_node-waits node requeue errs s t r e =
      elim (Bool-cases (remove_all_npu_mode_labels node.labels).1) [
        | inl m ↦ let e1 = rw (r, m) at e in sym (ap (λ x. x.0) (ok-injective (ap (λ x. x.0) e1)))
        | inr m ↦ let e1 = rw (r, m) at e in sym (ap (λ x. x.0) (ok-injective (ap (λ x. x.0) e1)))
      ]

  pub release_node-skips :
      (node : Node) (s : S)
      → is_restored node ≡ true
      → release_node client node s ≡ (ok (false, []), s)
  unfolding release_node
  release_node-skips node s r = rw r refl

  pub release_loop-waits :
      (nodes : List Node) (requeue : Bool) (errs : List String) (s t : S)
      → is_some_node (unrestored nodes) ≡ true
      → release_loop client nodes s ≡ (ok (requeue, errs), t)
      → requeue ≡ true
  unfolding release_loop unrestored
  release_loop-waits [] requeue errs s t w e = cc
  release_loop-waits (node ∷ nodes) requeue errs s t w e =
      let (c, s1, p, q) = >>=-eq-ok (release_node client node) _ s t (requeue, errs) e in
      let (c', s2, p', q') = >>=-eq-ok (release_loop client nodes) _ s1 t (requeue, errs) q in
      let out = ap (λ x. x.0) (ok-injective (ap (λ x. x.0) q')) in
      elim (Bool-cases (is_restored node)) [
        | inl r ↦ let rest = release_loop-waits nodes c'.0 c'.1 s1 s2 (rw r at w) p' in ground arith
        | inr r ↦ let here = release_node-waits node c.0 c.1 s s1 r p in ground arith
      ]

  pub release_loop-skips :
      (nodes : List Node) (s : S)
      → is_some_node (unrestored nodes) ≡ false
      → release_loop client nodes s ≡ (ok (false, []), s)
  unfolding release_loop unrestored
  release_loop-skips [] s w = refl
  release_loop-skips (node ∷ nodes) s w = elim (Bool-cases (is_restored node)) [
    | inl r ↦ rw (release_node-skips node s r, release_loop-skips nodes s (rw r at w)) refl
    | inr r ↦ let w' = rw r at w in cc
  ]
