-- ===== src/Common/Client/Labelled.antt =====
-- What a merge patch and an update do to the labels of nodes on the API server, as documented:
-- `labels_at` is the server's view, in a state of the cluster. Nothing else writes to the labels
-- during a call.
use accelerator_config_manag.Prelude.{String, Bool, true, false, ◌==◌, Option, none, some, ◌≡◌}
use accelerator_config_manag.Prelude.{
  if◌then◌else◌, arith, eq_iff, eq_refl, refl, ◌∙◌, List, [], ◌∷◌, Bool-cases, inl, inr,
}
use accelerator_config_manag.Prelude.GoMap.{GoMap, get}
use accelerator_config_manag.Api.Meta.{Node, GoError, done, failed}
use accelerator_config_manag.Common.Client.{NodeClient}
use accelerator_config_manag.Common.Filter.Kept.{all, has_labels}
use accelerator_config_manag.Common.Filter.Laws.{named}

-- Two labels are the same, or neither is there.
abbrev pub same_label : Option String → Option String → Bool
same_label none none = true
same_label none (some w) = false
same_label (some v) none = false
same_label (some v) (some w) = v == w

pub same_label-eq : (a b : Option String) → same_label a b ≡ true → a ≡ b
same_label-eq none none h = refl
same_label-eq none (some w) h = cc
same_label-eq (some v) none h = cc
same_label-eq (some v) (some w) h = ground (arith, eq_iff v w)

-- A label after a merge patch: the patch speaks only of what differs from its base.
abbrev pub merged : Option String → Option String → Option String → Option String
merged base wanted current = if same_label base wanted then current else wanted

pub record IsLabelled {S : Type 0} (client : NodeClient S) (labels_at : String → S → GoMap String)
    : Type 0 where
  pub patched :
      (base node answer : Node) (s : S)
      → (client.patch_node base node s).0 ≡ done answer
      → (name k : String)
      → get k (labels_at name (client.patch_node base node s).1) ≡ (
          if node.name == name
          then merged (get k base.labels) (get k node.labels) (get k (labels_at name s))
          else get k (labels_at name s))
  pub answered :
      (base node answer : Node) (s : S)
      → (client.patch_node base node s).0 ≡ done answer
      → (answer.name ≡ node.name)
        × ((k : String)
            → get k answer.labels ≡ get k (labels_at node.name (client.patch_node base node s).1))
  pub patch_failed :
      (base node : Node) (e : GoError) (s : S)
      → (client.patch_node base node s).0 ≡ failed e
      → (name k : String)
      → get k (labels_at name (client.patch_node base node s).1) ≡ get k (labels_at name s)
  pub updated :
      (node : Node) (s : S)
      → (client.update_node node s).0 ≡ none
      → (name k : String)
      → get k (labels_at name (client.update_node node s).1)
        ≡ (if node.name == name then get k node.labels else get k (labels_at name s))
  pub update_failed :
      (node : Node) (e : GoError) (s : S)
      → (client.update_node node s).0 ≡ some e
      → (name k : String)
      → get k (labels_at name (client.update_node node s).1) ≡ get k (labels_at name s)

-- Every node that is listed has labels, as the nodes of a cluster have.
abbrev pub ListsLabelled : {S : Type 0} → NodeClient S → Type 0
ListsLabelled {S} client =
    (selector : GoMap String) (s : S) (nodes : List Node)
    → (client.list_nodes selector s).0 ≡ done nodes
    → all has_labels nodes ≡ true

-- The node was read as it stands on the server.
abbrev pub IsFresh : {S : Type 0} → (String → S → GoMap String) → S → Node → Type 0
IsFresh labels_at s node = (k : String) → get k (labels_at node.name s) ≡ get k node.labels

-- A patch made against a fresh read leaves what it asks for.
pub merged_fresh : (base wanted : Option String) → merged base wanted base ≡ wanted
merged_fresh base wanted = elim (Bool-cases (same_label base wanted)) [
  | inl e ↦ rw e (same_label-eq base wanted e)
  | inr e ↦ rw e refl
]

-- The nodes were read as they stand on the server.
abbrev pub AllFresh : {S : Type 0} → (String → S → GoMap String) → S → List Node → Type 0
AllFresh labels_at s [] = Unit
AllFresh labels_at s (node ∷ nodes) = IsFresh labels_at s node × AllFresh labels_at s nodes

-- The labels of each node on the server are those that `wanted` makes of the labels that were read.
abbrev pub AllHave :
    {S : Type 0}
    → (String → S → GoMap String)
    → (String → Option String → Option String)
    → S
    → List Node
    → Type 0
AllHave labels_at wanted s [] = Unit
AllHave labels_at wanted s (node ∷ nodes) =
    ((k : String) → get k (labels_at node.name s) ≡ wanted k (get k node.labels))
    × AllHave labels_at wanted s nodes

-- The labels of all other nodes are as they were.
abbrev pub OthersKept : {S : Type 0} → (String → S → GoMap String) → List Node → S → S → Type 0
OthersKept labels_at nodes s s' =
    (name : String)
    → named name nodes ≡ false
    → (k : String) → get k (labels_at name s') ≡ get k (labels_at name s)

-- What one node has been given, and the nodes of other names have not.
abbrev pub OnlyChanged :
    {S : Type 0}
    → (String → S → GoMap String)
    → (String → Option String → Option String)
    → Node
    → S
    → S
    → Type 0
OnlyChanged labels_at wanted node s s' =
    (name k : String)
    → get k (labels_at name s')
      ≡ (if node.name == name then wanted k (get k node.labels) else get k (labels_at name s))

module _ {S : Type 0} (labels_at : String → S → GoMap String)
    (wanted : String → Option String → Option String) where
  -- A change of one node leaves the fresh reads of nodes with other names fresh.
  pub AllFresh-OnlyChanged :
      (node : Node) (nodes : List Node) (s t : S)
      → named node.name nodes ≡ false
      → OnlyChanged labels_at wanted node s t
      → AllFresh labels_at s nodes
      → AllFresh labels_at t nodes
  unfolding named
  AllFresh-OnlyChanged node [] s t h c f = tt
  AllFresh-OnlyChanged node (n ∷ nodes) s t h c (f, fs) = (
    (λ k. c n.name k ∙ ground (arith, f k, eq_iff n.name node.name, eq_iff node.name n.name)),
    AllFresh-OnlyChanged node nodes s t (ground arith) c fs,
  )

  -- One node, and then the others.
  pub AllHave-cons :
      (node : Node) (nodes : List Node) (s t u : S)
      → named node.name nodes ≡ false
      → OnlyChanged labels_at wanted node s t
      → OthersKept labels_at nodes t u
      → AllHave labels_at wanted u nodes
      → AllHave labels_at wanted u (node ∷ nodes)
  AllHave-cons node nodes s t u h c o a =
      ((λ k. o node.name h k ∙ c node.name k ∙ rw (eq_refl node.name) refl), a)

  pub OthersKept-cons :
      (node : Node) (nodes : List Node) (s t u : S)
      → OnlyChanged labels_at wanted node s t
      → OthersKept labels_at nodes t u
      → OthersKept labels_at (node ∷ nodes) s u
  unfolding named
  OthersKept-cons node nodes s t u c o name h k = o name (ground arith) k ∙ c name k ∙ ground arith
