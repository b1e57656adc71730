-- ===== src/Common/Client/Loop.antt =====
-- The loops over nodes that thread a manager and collect errors: what a loop without errors leaves on
-- the API server, from what each of its rounds does.
use accelerator_config_manag.Prelude.{
  String, Option, none, List, [], ◌∷◌, ◌++◌, ◌≡◌, refl, ap, ◌∙◌, arith, eq_iff,
}
use accelerator_config_manag.Prelude.GoMap.{GoMap, get}
use accelerator_config_manag.Prelude.Run.{ok, ok-injective}
use accelerator_config_manag.Prelude.Eff.{Eff, pure, >>=-eq-ok, ◌>>=◌}
use accelerator_config_manag.Api.Meta.{Node, done}
use accelerator_config_manag.Common.Client.{NodeClient, joined_error}
use accelerator_config_manag.Common.Client.Labelled.{
  IsLabelled, merged_fresh, IsFresh, AllFresh, AllHave, OthersKept, OnlyChanged,
  AllFresh-OnlyChanged, AllHave-cons, OthersKept-cons,
}
use accelerator_config_manag.Common.Filter.Laws.{UniqueNames}

pub append-eq-nil {ℓ} : {A : Type ℓ} (xs ys : List A) → xs ++ ys ≡ [] → (xs ≡ []) × (ys ≡ [])
append-eq-nil [] ys h = (refl, h)
append-eq-nil (x ∷ xs) ys h = cc

pub joined_error-none :
    (errorf : String → String) (errs : List String) → joined_error errorf errs ≡ none → errs ≡ []
unfolding joined_error
joined_error-none errorf [] h = refl
joined_error-none errorf (x ∷ xs) h = cc

module _ {S M : Type 0} where
  -- A round over each node, as the `for` loops of the controllers.
  unfoldable pub each :
      (M → Node → Eff S (M × List String)) → M → List Node → Eff S (M × List String)
  each step m [] = pure (m, [])
  each step m (node ∷ nodes) = do
    (m', errs) ← step m node
    (m'', rest) ← each step m' nodes
    pure (m'', errs ++ rest)

module _ {S M : Type 0} (labels_at : String → S → GoMap String)
    (wanted : String → Option String → Option String) (Kept : M → Type 0)
    (step : M → Node → Eff S (M × List String))
    (changed : (m m' : M) (node : Node) (s t : S)
      → Kept m
      → IsFresh labels_at s node
      → step m node s ≡ (ok (m', []), t)
      → Kept m' × OnlyChanged labels_at wanted node s t) where
  -- A loop that has collected no error has given each node the labels that are wanted, and has left
  -- the other nodes alone.
  pub each-changed :
      (nodes : List Node) (m m' : M) (s t : S)
      → Kept m
      → UniqueNames nodes
      → AllFresh labels_at s nodes
      → each step m nodes s ≡ (ok (m', []), t)
      → AllHave labels_at wanted t nodes × OthersKept labels_at nodes s t
  unfolding each
  each-changed [] m m' s t k u f e = (tt, λ name h j. rw (← ap (λ x. x.1) e) refl)
  each-changed (node ∷ nodes) m m' s t k (fresh, u) (f, fs) e =
      let (c, s1, p, q) = >>=-eq-ok (step m node) _ s t (m', []) e in
      let (c', s2, p', q') = >>=-eq-ok (each step c.0 nodes) _ s1 t (m', []) q in
      let (none1, none2) =
        append-eq-nil c.1 c'.1 (ap (λ x. x.1) (ok-injective (ap (λ x. x.0) q'))) in
      let p1 : step m node s ≡ (ok (c.0, []), s1) = p ∙ (λ i. (ok (c.0, none1 i), s1)) in
      let (k', only) = changed m c.0 node s s1 k f p1 in
      let p2 : each step c.0 nodes s1 ≡ (ok (c'.0, []), t) =
        p' ∙ (λ i. (ok (c'.0, none2 i), (ap (λ x. x.1) q') i)) in
      let (have, kept) =
        each-changed nodes c.0 c'.0 s1 t k' u
          (AllFresh-OnlyChanged labels_at wanted node nodes s s1 fresh only fs) p2 in
      (
        AllHave-cons labels_at wanted node nodes s s1 t fresh only kept have,
        OthersKept-cons labels_at wanted node nodes s s1 t only kept,
      )

module _ {S : Type 0} (client : NodeClient S) (labels_at : String → S → GoMap String)
    (L : IsLabelled client labels_at) (wanted : String → Option String → Option String) where
  -- A patch of a fresh read to the labels that are wanted.
  pub patch-changed :
      (node a : Node) (labels : GoMap String) (s : S)
      → IsFresh labels_at s node
      → ((k : String) → get k labels ≡ wanted k (get k node.labels))
      → (client.patch_node node (record { name = node.name; labels = labels }) s).0 ≡ done a
      → OnlyChanged labels_at wanted node s
          (client.patch_node node (record { name = node.name; labels = labels }) s).1
  patch-changed node a labels s f look p name k =
      L.patched node (record { name = node.name; labels = labels }) a s p name k
      ∙ ground (
        arith,
        eq_iff node.name name,
        f k,
        look k,
        merged_fresh (get k node.labels) (get k labels),
      )

  -- Nothing is to be done where the labels are as they are wanted.
  pub settled-changed :
      (node : Node) (s : S)
      → IsFresh labels_at s node
      → ((k : String) → wanted k (get k node.labels) ≡ get k node.labels)
      → OnlyChanged labels_at wanted node s s
  settled-changed node s f look name k = ground (arith, eq_iff node.name name, f k, look k)

  -- An update sets the labels whatever they were.
  pub update-changed :
      (node : Node) (labels : GoMap String) (s : S)
      → ((k : String) → get k labels ≡ wanted k (get k node.labels))
      → (client.update_node (record { name = node.name; labels = labels }) s).0 ≡ none
      → OnlyChanged labels_at wanted node s
          (client.update_node (record { name = node.name; labels = labels }) s).1
  update-changed node labels s look p name k =
      L.updated (record { name = node.name; labels = labels }) s p name k ∙ ground (arith, look k)
