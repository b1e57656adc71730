-- ===== src/Npu/Nodes/Release.antt =====
-- ReleaseNodes of internal/controller/npunodepolicy_controller.go: the nodes that it waits for, and
-- what their labels on the API server are when it returns nil.
use accelerator_config_manag.Prelude.{
  String, Bool, true, false, ◌||◌, none, List, [], ◌∷◌, ◌≡◌, refl, sym, ap, ◌∙◌, Bool-cases, inl,
  inr,
}
use accelerator_config_manag.Prelude.Dict.{Dict, lookup}
use accelerator_config_manag.Prelude.GoMap.{GoMap, nil_map, made}
use accelerator_config_manag.Prelude.Run.{ok, ok-injective}
use accelerator_config_manag.Prelude.Eff.{Eff, pure, ◌>>=◌, >>=-eq-ok}
use accelerator_config_manag.Api.Meta.{Node, Fallible-cases}
use accelerator_config_manag.Labels.{Labels}
use accelerator_config_manag.Common.Client.{NodeClient}
use accelerator_config_manag.Common.Client.Labelled.{
  IsLabelled, IsFresh, AllFresh, AllHave, OthersKept, OnlyChanged, AllFresh-OnlyChanged,
  AllHave-cons, OthersKept-cons,
}
use accelerator_config_manag.Common.Client.Loop.{
  append-eq-nil, joined_error-none, patch-changed, settled-changed,
}
use accelerator_config_manag.Common.Filter.Laws.{UniqueNames}
use accelerator_config_manag.Npu.Controls.Released.{
  released_npu_label, released_npu_label-none, remove_all_npu_mode_labels_lem,
  remove_all_npu_mode_labels_nil,
}
use accelerator_config_manag.Npu.Nodes.Unrestored.{
  unrestored, is_some_node, named-unrestored, release_node-skips,
}
use accelerator_config_manag.Npu.Nodes.{
  is_restored, write_released, release_node, release_loop, release_nodes,
}

module _ {S : Type 0} (client : NodeClient S) (labels_at : String → S → GoMap String)
    (L : IsLabelled client labels_at) where
  abbrev released_round : Node → Labels → Eff S (Bool × List String)
  released_round node labels = do errs ← write_released client node labels; pure (true, errs)

  written-changed :
      (name : String) (d d' : Dict String) (requeue : Bool) (s t : S)
      → IsFresh labels_at s (record { name = name; labels = made d })
      → ((k : String) → lookup k d' ≡ released_npu_label k (lookup k d))
      → released_round (record { name = name; labels = made d }) (made d') s ≡ (ok (requeue, []), t)
      → (requeue ≡ true)
        × OnlyChanged labels_at released_npu_label (record { name = name; labels = made d }) s t
  written-changed name d d' requeue s t f look e =
      let old : Node = record { name = name; labels = made d } in
      let new : Node = record { name = name; labels = made d' } in
      elim (Fallible-cases (client.patch_node old new s).0) [
        | inl (a, p) ↦
            let e1 = rw p at e in
            (
              ap (λ x. x.0) (sym (ok-injective (ap (λ x. x.0) e1))),
              rw (← ap (λ x. x.1) e1)
                  (patch-changed client labels_at L released_npu_label old a (made d') s f look p),
            )
        | inr (x, p) ↦ let e1 = rw p at e in cc
      ]

  -- A node that is not restored is released, and waited for.
  release_node-changed :
      (name : String) (labels : Labels) (requeue : Bool) (s t : S)
      → IsFresh labels_at s (record { name = name; labels = labels })
      → is_restored (record { name = name; labels = labels }) ≡ false
      → release_node client (record { name = name; labels = labels }) s ≡ (ok (requeue, []), t)
      → (requeue ≡ true)
        × OnlyChanged labels_at released_npu_label (record { name = name; labels = labels }) s t
  unfolding release_node
  release_node-changed name nil_map requeue s t f r e =
      let e1 = rw remove_all_npu_mode_labels_nil at e in
      (
        ap (λ x. x.0) (sym (ok-injective (ap (λ x. x.0) e1))),
        rw (← ap (λ x. x.1) e1) (
            settled-changed client labels_at L released_npu_label
              (record { name = name; labels = nil_map }) s f (λ k. released_npu_label-none k)),
      )
  release_node-changed name (made d) requeue s t f r e =
      let (d', modified, q, look, iff) = remove_all_npu_mode_labels_lem d in
      let e1 = rw (r, q) at e in
      elim (Bool-cases modified) [
        | inl m ↦ written-changed name d d' requeue s t f look (rw m at e1)
        | inr m ↦
            let e2 = rw m at e1 in
            (
              ap (λ x. x.0) (sym (ok-injective (ap (λ x. x.0) e2))),
              rw (← ap (λ x. x.1) e2) (
                  settled-changed client labels_at L released_npu_label
                    (record { name = name; labels = made d }) s f (λ k. sym (look k) ∙ iff.0 m k)),
            )
      ]

  Settled : List Node → Bool → S → S → Type 0
  Settled nodes requeue s t =
      (requeue ≡ is_some_node (unrestored nodes))
      × AllHave labels_at released_npu_label t (unrestored nodes)
      × OthersKept labels_at (unrestored nodes) s t

  release_loop-changed :
      (nodes : List Node) (requeue : Bool) (s t : S)
      → UniqueNames nodes
      → AllFresh labels_at s nodes
      → release_loop client nodes s ≡ (ok (requeue, []), t)
      → Settled nodes requeue s t
  unfolding release_loop unrestored Settled
  release_loop-changed [] requeue s t u f e = (
    ap (λ x. x.0) (sym (ok-injective (ap (λ x. x.0) e))),
    tt,
    λ name h k. rw (← ap (λ x. x.1) e) refl,
  )
  release_loop-changed (node ∷ nodes) requeue s t (fresh, u) (f, fs) e =
      let (c, s1, p, q) = >>=-eq-ok (release_node client node) _ s t (requeue, []) e in
      let (c', s2, p', q') = >>=-eq-ok (release_loop client nodes) _ s1 t (requeue, []) q in
      let (none1, none2) =
        append-eq-nil c.1 c'.1 (ap (λ x. x.1) (ok-injective (ap (λ x. x.0) q'))) in
      let waits : (c.0 || c'.0) ≡ requeue = ap (λ x. x.0) (ok-injective (ap (λ x. x.0) q')) in
      let p2 : release_loop client nodes s1 ≡ (ok (c'.0, []), t) =
        p' ∙ (λ i. (ok (c'.0, none2 i), (ap (λ x. x.1) q') i)) in
      elim (Bool-cases (is_restored node)) [
        | inl r ↦
            let kept = sym p ∙ release_node-skips client node s r in
            let same : s1 ≡ s = ap (λ x. x.1) kept in
            let (w, have, others) = release_loop-changed nodes c'.0 s t u fs (rw same at p2) in
            rw r
              (sym waits ∙ rw (ap (λ x. x.0) (ok-injective (ap (λ x. x.0) kept))) w, have, others)
        | inr r ↦
            let p1 : release_node client node s ≡ (ok (c.0, []), s1) =
              p ∙ (λ i. (ok (c.0, none1 i), s1)) in
            let (w, only) = release_node-changed node.name node.labels c.0 s s1 f r p1 in
            let (w', have, others) =
              release_loop-changed nodes c'.0 s1 t u
                (AllFresh-OnlyChanged labels_at released_npu_label node nodes s s1 fresh only fs)
                p2 in
            rw r (
              sym waits ∙ rw w refl,
              AllHave-cons labels_at released_npu_label node (unrestored nodes) s s1 t
                  (named-unrestored node.name nodes fresh) only others have,
              OthersKept-cons labels_at released_npu_label node (unrestored nodes) s s1 t only
                  others,
            )
      ]

  -- The nodes have different names and were read as they stand on the server, and ReleaseNodes of
  -- the NPU controller returns no error. Then it asks for another round exactly when it was given a
  -- node that is not restored, on the server each of these nodes has exactly the labels of a released
  -- node, and the labels of all other nodes, the restored ones among them, are as they were.
  pub npu_release_nodes_lem :
      (nodes : List Node) (requeue : Bool) (s t : S)
      → UniqueNames nodes
      → AllFresh labels_at s nodes
      → release_nodes client nodes s ≡ (ok (requeue, none), t)
      → (requeue ≡ is_some_node (unrestored nodes))
        × AllHave labels_at released_npu_label t (unrestored nodes)
        × OthersKept labels_at (unrestored nodes) s t
  unfolding release_nodes Settled
  npu_release_nodes_lem nodes requeue s t u f e =
      let (c, s1, p, q) = >>=-eq-ok (release_loop client nodes) _ s t (requeue, none) e in
      let out = ok-injective (ap (λ x. x.0) q) in
      let none1 = joined_error-none client.errorf c.1 (ap (λ x. x.1) out) in
      release_loop-changed nodes requeue s t u f
        (p ∙ (λ i. (ok ((ap (λ x. x.0) out) i, none1 i), ap (λ x. x.1) q i)))
