-- ===== src/Gpu/Nodes/Release.antt =====
-- ReleaseNodes releases the labels of all its nodes on the API server, or returns an error.
use accelerator_config_manag.Prelude.{
  String, none, List, [], ◌∷◌, ◌≡◌, refl, ap, Bool-cases, inl, inr, arith, eq_iff,
}
use accelerator_config_manag.Prelude.Dict.{Dict, lookup}
use accelerator_config_manag.Prelude.GoMap.{GoMap, nil_map, made}
use accelerator_config_manag.Prelude.Run.{ok, ok-injective}
use accelerator_config_manag.Prelude.Eff.{>>=-eq-ok}
use accelerator_config_manag.Api.Meta.{Node, Fallible-cases}
use accelerator_config_manag.Labels.{Labels}
use accelerator_config_manag.Common.Client.{NodeClient}
use accelerator_config_manag.Common.Client.Labelled.{
  IsLabelled, IsFresh, AllFresh, AllHave, OthersKept, OnlyChanged, AllFresh-OnlyChanged,
  AllHave-cons, OthersKept-cons,
}
use accelerator_config_manag.Common.Client.Loop.{append-eq-nil, joined_error-none, patch-changed}
use accelerator_config_manag.Common.Filter.Laws.{UniqueNames}
use accelerator_config_manag.Gpu.Controls.Released.{
  released_gpu_label, remove_all_gpu_mode_labels_lem, remove_all_gpu_mode_labels_nil,
}
use accelerator_config_manag.Gpu.Nodes.{write_released, release_node, release_loop, release_nodes}

module _ {S : Type 0} (client : NodeClient S) (labels_at : String → S → GoMap String)
    (L : IsLabelled client labels_at) where
  write_released-changed :
      (name : String) (d d' : Dict String) (s t : S)
      → IsFresh labels_at s (record { name = name; labels = made d })
      → ((k : String) → lookup k d' ≡ released_gpu_label k (lookup k d))
      → write_released client (record { name = name; labels = made d }) (made d') s ≡ (ok [], t)
      → OnlyChanged labels_at released_gpu_label (record { name = name; labels = made d }) s t
  write_released-changed name d d' s t f look e =
      let old : Node = record { name = name; labels = made d } in
      let new : Node = record { name = name; labels = made d' } in
      elim (Fallible-cases (client.patch_node old new s).0) [
        | inl (a, p) ↦
            let e1 = rw p at e in
            rw (← ap (λ x. x.1) e1)
              (patch-changed client labels_at L released_gpu_label old a (made d') s f look p)
        | inr (x, p) ↦ let e1 = rw p at e in cc
      ]

  release_node-changed :
      (name : String) (labels : Labels) (s t : S)
      → IsFresh labels_at s (record { name = name; labels = labels })
      → release_node client (record { name = name; labels = labels }) s ≡ (ok [], t)
      → OnlyChanged labels_at released_gpu_label (record { name = name; labels = labels }) s t
  unfolding release_node
  release_node-changed name nil_map s t f e = let e1 = rw remove_all_gpu_mode_labels_nil at e in cc
  release_node-changed name (made d) s t f e =
      let (d', modified, q, look, iff) = remove_all_gpu_mode_labels_lem d in
      let e1 = rw q at e in
      elim (Bool-cases modified) [
        | inl m ↦ write_released-changed name d d' s t f look (rw m at e1)
        | inr m ↦
            let e2 = rw m at e1 in
            λ name' k.
              rw (← ap (λ x. x.1) e2) (ground (arith, eq_iff name name', f k, look k, iff.0 m k))
      ]

  release_loop-changed :
      (nodes : List Node) (s t : S)
      → UniqueNames nodes
      → AllFresh labels_at s nodes
      → release_loop client nodes s ≡ (ok [], t)
      → AllHave labels_at released_gpu_label t nodes × OthersKept labels_at nodes s t
  unfolding release_loop
  release_loop-changed [] s t u f e = (tt, λ name h k. rw (← ap (λ x. x.1) e) refl)
  release_loop-changed (node ∷ nodes) s t (fresh, u) (f, fs) e =
      let (errs, s1, p, q) = >>=-eq-ok (release_node client node) _ s t [] e in
      let (rest, s2, p', q') = >>=-eq-ok (release_loop client nodes) _ s1 t [] q in
      let (none1, none2) = append-eq-nil errs rest (ok-injective (ap (λ x. x.0) q')) in
      let c = release_node-changed node.name node.labels s s1 f (rw none1 at p) in
      let ih =
        release_loop-changed nodes s1 t u
          (AllFresh-OnlyChanged labels_at released_gpu_label node nodes s s1 fresh c fs)
          (rw (none2, ap (λ x. x.1) q') at p') in
      (
        AllHave-cons labels_at released_gpu_label node nodes s s1 t fresh c ih.1 ih.0,
        OthersKept-cons labels_at released_gpu_label node nodes s s1 t c ih.1,
      )

  -- The nodes have different names and were read as they stand on the server, and ReleaseNodes
  -- returns nil. Then on the server each of them has exactly the labels of a released node, and the
  -- labels of all other nodes are as they were.
  pub release_nodes_lem :
      (nodes : List Node) (s t : S)
      → UniqueNames nodes
      → AllFresh labels_at s nodes
      → release_nodes client nodes s ≡ (ok none, t)
      → AllHave labels_at released_gpu_label t nodes × OthersKept labels_at nodes s t
  unfolding release_nodes
  release_nodes_lem nodes s t u f e =
      let (errs, s1, p, q) = >>=-eq-ok (release_loop client nodes) _ s t none e in
      release_loop-changed nodes s t u f (
        rw (joined_error-none client.errorf errs (ok-injective (ap (λ x. x.0) q)), ap (λ x. x.1) q)
          at p)
