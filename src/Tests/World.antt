-- ===== src/Tests/World.antt =====
-- A cluster of which only the labels of nodes are kept, and its client, on which no call fails.
use accelerator_config_manag.Prelude.{
  String, Bool, true, false, ◌==◌, Option, none, some, List, [], ◌∷◌, ◌++◌, map, ◌≡◌, refl, sym, ap,
  ◌∙◌, arith, eq_iff, if◌then◌else◌,
}
use accelerator_config_manag.Prelude.Dict.{
  Dict, lookup, insert, erase, lookup-insert, lookup-erase, lookup-cons, lookup-nil,
}
use accelerator_config_manag.Prelude.GoMap.{GoMap, made, get, entries, lookup-entries}
use accelerator_config_manag.Api.Meta.{Node, done}
use accelerator_config_manag.Common.Client.{NodeClient}
use accelerator_config_manag.Common.Client.Labelled.{IsLabelled, merged, same_label}

-- The labels of a node by its name.
abbrev pub Cluster : Type 0
Cluster = String → Dict String

abbrev pub labels_at : String → Cluster → GoMap String
labels_at name s = made (s name)

abbrev pub with_labels : String → Dict String → Cluster → Cluster
with_labels name d s n = if name == n then d else s n

abbrev pub keys : Dict String → List String
keys d = map (λ e. e.0) d

abbrev pub put : String → Option String → Dict String → Dict String
put k none d = erase k d
put k (some v) d = insert k v d

-- A merge patch: a label that differs from the base is set or removed.
module _ (base node : Dict String) where
  unfoldable pub step : String → Dict String → Dict String
  step k d = if same_label (lookup k base) (lookup k node) then d else put k (lookup k node) d

  unfoldable pub steps : List String → Dict String → Dict String
  unfolding step
  steps [] d = d
  steps (k ∷ ks) d = steps ks (step k d)

  abbrev wants : String → Option String → Option String
  wants k old = merged (lookup k base) (lookup k node) old

  lookup-put :
      (j k : String) (v : Option String) (d : Dict String)
      → lookup j (put k v d) ≡ (if k == j then v else lookup j d)
  lookup-put j k none d = lookup-erase j k d
  lookup-put j k (some v) d = lookup-insert j k v d

  lookup-step :
      (j k : String) (d : Dict String)
      → lookup j (step k d) ≡ (if k == j then wants j (lookup j d) else lookup j d)
  unfolding step
  lookup-step j k d = ground (arith, eq_iff k j, lookup-put j k (lookup k node) d)

  -- A key that is to be gone through.
  abbrev within : String → List String → Bool
  within j [] = false
  within j (k ∷ ks) = if k == j then true else within j ks

  lookup-steps :
      (j : String) (ks : List String) (d : Dict String)
      → lookup j (steps ks d) ≡ (if within j ks then wants j (lookup j d) else lookup j d)
  unfolding steps
  lookup-steps j [] d = refl
  lookup-steps j (k ∷ ks) d = ground (arith, lookup-steps j ks (step k d), lookup-step j k d)

  within-append :
      (j : String) (xs ys : List String)
      → within j (xs ++ ys) ≡ (if within j xs then true else within j ys)
  within-append j [] ys = refl
  within-append j (x ∷ xs) ys = ground (arith, within-append j xs ys)

  lookup-without : (j : String) (d : Dict String) → within j (keys d) ≡ false → lookup j d ≡ none
  lookup-without j [] h = lookup-nil j
  lookup-without j ((k, v) ∷ d) h = rw lookup-cons (ground (arith, lookup-without j d))

  unfoldable pub patch : Dict String → Dict String
  unfolding steps
  patch d = steps (keys base ++ keys node) d

  pub lookup-patch : (j : String) (d : Dict String) → lookup j (patch d) ≡ wants j (lookup j d)
  unfolding patch
  lookup-patch j d =
      lookup-steps j (keys base ++ keys node) d
      ∙ ground (
        arith,
        within-append j (keys base) (keys node),
        lookup-without j base,
        lookup-without j node,
      )

abbrev pub node_at : String → Cluster → Node
node_at name s = record { name = name; labels = made (s name) }

abbrev pub patched_at : Node → Node → Cluster → Cluster
patched_at base node s =
    with_labels node.name (patch (entries base.labels) (entries node.labels) (s node.name)) s

-- The cluster has one node, "n1", which every selector matches.
abbrev pub nodes_client : NodeClient Cluster
nodes_client = record {
  get_node = λ name s. (done (node_at name s), s);
  list_nodes = λ selector s. (done (node_at "n1" s ∷ []), s);
  update_node = λ node s. (none, with_labels node.name (entries node.labels) s);
  patch_node =
      λ base node s. (done (node_at node.name (patched_at base node s)), patched_at base node s);
  errorf = λ text. text;
}

get-patched :
    (base node : Node) (s : Cluster) (name k : String)
    → get k (labels_at name (patched_at base node s)) ≡ (
        if node.name == name
        then merged (get k base.labels) (get k node.labels) (get k (labels_at name s))
        else get k (labels_at name s))
get-patched base node s name k = ground (
  arith,
  eq_iff node.name name,
  lookup-patch (entries base.labels) (entries node.labels) k (s node.name),
  lookup-entries k base.labels,
  lookup-entries k node.labels,
)

get-updated :
    (node : Node) (s : Cluster) (name k : String)
    → get k (labels_at name (with_labels node.name (entries node.labels) s))
      ≡ (if node.name == name then get k node.labels else get k (labels_at name s))
get-updated node s name k = ground (arith, lookup-entries k node.labels)

pub nodes_client-IsLabelled : IsLabelled nodes_client labels_at
nodes_client-IsLabelled = record {
  patched = λ base node answer s e name k. get-patched base node s name k;
  answered = λ base node answer s e.
      let p : node_at node.name (patched_at base node s) ≡ answer = cc in
      (ap (λ n. n.name) (sym p), λ k. ap (λ n. get k n.labels) (sym p));
  patch_failed = λ base node e s h name k. cc;
  updated = λ node s h name k. get-updated node s name k;
  update_failed = λ node e s h name k. cc;
}
