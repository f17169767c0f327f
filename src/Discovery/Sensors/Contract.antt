-- ===== src/Discovery/Sensors/Contract.antt =====
-- The catalog against the state document: which member each component reads, and who reads a member.
use sparkwrangler.Base.{
  ℕ, ◌+◌, Bool, true, false, ◌||◌, List, [], ◌∷◌, ◌++◌, map, ◌≡◌, refl, if◌then◌else◌, Bytes, codes,
  Dict, keys, equal, All, every, All-equal, Distinct, distinct, distinct_sound, Distinct-map,
}
use sparkwrangler.Discovery.Device.{Component}
use sparkwrangler.Discovery.Sensors.{sensors, uid}
use sparkwrangler.Discovery.Templates.{optional, optional_binary}
use sparkwrangler.Publisher.Json.Members.{IsFull, keys-members}
use sparkwrangler.Publisher.Json.{engine_keys, members, document_keys}
use sparkwrangler.Publisher.State.{State}

-- Whether a component's template reads a member of the document.
unfoldable pub reads : Component → Bytes → Bool
reads c k = equal c.value_template (optional k) || equal c.value_template (optional_binary k)

-- How many of the keys a component reads, and how many components read a key.
unfoldable pub keys_read : Component → List Bytes → ℕ
unfolding reads
keys_read c [] = 0
keys_read c (k ∷ ks) = (if reads c k then 1 else 0) + keys_read c ks

unfoldable pub readers : Bytes → Dict Component → ℕ
unfolding reads
readers k [] = 0
readers k ((i, c) ∷ cs) = (if reads c k then 1 else 0) + readers k cs

-- Each component reads exactly one key of the document that such a node publishes.
sensors-keys_read :
    (node_id : Bytes) (with_vllm : Bool)
    → All (λ e. keys_read e.1 (document_keys with_vllm) ≡ 1) (sensors node_id with_vllm)
unfolding sensors keys_read optional optional_binary equal every
sensors-keys_read node_id true =
    All-equal (λ (e : Bytes × Component). keys_read e.1 (document_keys true)) 1
      (sensors node_id true) refl
sensors-keys_read node_id false =
    All-equal (λ (e : Bytes × Component). keys_read e.1 (document_keys false)) 1
      (sensors node_id false) refl

-- Each key of the document is read by exactly one component.
pub readers-sensors :
    (node_id : Bytes) (with_vllm : Bool)
    → All (λ k. readers k (sensors node_id with_vllm) ≡ 1) (document_keys with_vllm)
unfolding sensors readers optional optional_binary equal every
readers-sensors node_id true =
    All-equal (λ k. readers k (sensors node_id true)) 1 (document_keys true) refl
readers-sensors node_id false =
    All-equal (λ k. readers k (sensors node_id false)) 1 (document_keys false) refl

-- The components of a catalog and the members of the document of a state in which nothing is missing
-- stand one to one, on a worker as on a node with an engine: each component reads exactly one of the
-- document's keys, and each key is read by exactly one component.
pub sensors-readers :
    {F : Type 0} (node_id : Bytes) (with_vllm : Bool) (s : State F)
    → IsFull with_vllm s
    → All (λ e. keys_read e.1 (keys (members s)) ≡ 1) (sensors node_id with_vllm)
      × All (λ k. readers k (sensors node_id with_vllm) ≡ 1) (keys (members s))
sensors-readers node_id with_vllm s h =
    rw (keys-members with_vllm s h)
      (sensors-keys_read node_id with_vllm, readers-sensors node_id with_vllm)

-- The unique ids of a catalog are those of its keys.
abbrev unique_ids : Dict Component → List Bytes
unique_ids m = map (λ e. e.1.unique_id) m

unique_ids-uid :
    (node_id : Bytes) (with_vllm : Bool)
    → unique_ids (sensors node_id with_vllm) ≡ map (uid node_id) (keys (sensors node_id with_vllm))
unfolding sensors equal
unique_ids-uid node_id true = refl
unique_ids-uid node_id false = refl

append_cancel : (a b c : Bytes) → a ++ b ≡ a ++ c → b ≡ c
append_cancel [] b c h = h
append_cancel (x ∷ a) b c h = append_cancel a b c (cc)

keys-Distinct : (node_id : Bytes) (with_vllm : Bool) → Distinct (keys (sensors node_id with_vllm))
unfolding sensors equal distinct
keys-Distinct node_id true = distinct_sound (keys (sensors node_id true)) refl
keys-Distinct node_id false = distinct_sound (keys (sensors node_id false)) refl

-- No two components of a node share a unique id, and each id is the node's, an underscore and the
-- component's key, so that it does not depend on the component's displayed name.
pub unique_ids-Distinct :
    (node_id : Bytes) (with_vllm : Bool)
    → Distinct (map (λ e. e.1.unique_id) (sensors node_id with_vllm))
      × (map (λ e. e.1.unique_id) (sensors node_id with_vllm)
          ≡ map (λ k. node_id ++ (codes "_" ++ k)) (keys (sensors node_id with_vllm)))
unique_ids-Distinct node_id with_vllm =
    let e = unique_ids-uid node_id with_vllm in
    (
      rw e (
          Distinct-map (uid node_id)
            (λ x y h. append_cancel (codes "_") x y (append_cancel node_id _ _ h))
            (keys (sensors node_id with_vllm)) (keys-Distinct node_id with_vllm)),
      e,
    )

-- A worker declares none of the components that read an engine's members.
pub readers-worker :
    (node_id : Bytes) → All (λ k. readers k (sensors node_id false) ≡ 0) engine_keys
unfolding sensors readers optional optional_binary equal every
readers-worker node_id = All-equal (λ k. readers k (sensors node_id false)) 0 engine_keys refl
