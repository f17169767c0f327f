-- ===== src/Discovery/Sensors/Typing.antt =====
-- The catalog against the values of the state document: a component fits the value that it reads.
use sparkwrangler.Base.{
  Bool, true, false, not, ◌&&◌, some, List, [], ◌∷◌, ◌≡◌, refl, if◌then◌else◌, arith, Bytes, codes,
  Dict, lookup, equal, equal_iff, All, All-map, every, every_sound,
}
use sparkwrangler.Discovery.Device.{Component}
use sparkwrangler.Discovery.Sensors.Contract.{reads}
use sparkwrangler.Discovery.Sensors.{sensors}
use sparkwrangler.Discovery.Templates.{optional, optional_binary}
use sparkwrangler.Publisher.Json.Kinds.{
  Kind, truth, string, whole, real, kind, document_kinds, lookup-members,
}
use sparkwrangler.Publisher.Json.{members}
use sparkwrangler.Publisher.State.{State}

-- The components that read a key.
unfoldable pub readers_of : Bytes → Dict Component → List Component
unfolding reads
readers_of k [] = []
readers_of k ((i, c) ∷ cs) = let rest = readers_of k cs in if reads c k then c ∷ rest else rest

is_empty : Bytes → Bool
is_empty [] = true
is_empty (c ∷ s) = false

-- A sensor with a unit or a state class is one of numbers: Home Assistant refuses a text for it.
unfoldable pub is_numeric : Component → Bool
unfolding is_empty
is_numeric c = not (is_empty c.unit_of_measurement && is_empty c.state_class)

-- Whether a component is of the sort of a value: a binary sensor for a truth value, a sensor of numbers
-- for a number, and another sensor for a text.
unfoldable pub fits : Component → Kind → Bool
unfolding is_numeric
fits c truth = equal c.platform (codes "binary_sensor")
fits c string = equal c.platform (codes "sensor") && not (is_numeric c)
fits c whole = equal c.platform (codes "sensor") && is_numeric c
fits c real = equal c.platform (codes "sensor") && is_numeric c

-- Whether the components that read a member fit its kind.
well_read : Dict Component → Bytes × Kind → Bool
unfolding readers_of every fits
well_read cs e = every (λ c. fits c e.1) (readers_of e.0 cs)

every-well_read :
    (node_id : Bytes) (with_vllm : Bool)
    → every (well_read (sensors node_id with_vllm)) document_kinds ≡ true
unfolding well_read sensors reads optional optional_binary equal is_empty
every-well_read node_id true = refl
every-well_read node_id false = refl

-- What a check of all entries says of the one that is found.
every-lookup :
    (p : Bytes × Kind → Bool) (d : Dict Kind) (k : Bytes) (x : Kind)
    → every p d ≡ true
    → lookup k d ≡ some x
    → p (k, x) ≡ true
unfolding every lookup
every-lookup p [] k x h e = cc
every-lookup p ((i, y) ∷ d) k x h e = ground (arith, equal_iff i k, every-lookup p d k x)

-- Whatever a state holds, each component that reads a member of its document fits the member's value:
-- binary sensors read truth values, the sensors with a unit or a state class read numbers, and the
-- others read texts.
pub sensors-fits :
    {F : Type 0} (node_id : Bytes) (with_vllm : Bool) (s : State F)
    → All
        (λ m. All (λ c. fits c (kind m.1) ≡ true) (readers_of m.0 (sensors node_id with_vllm)))
        (members s)
unfolding well_read
sensors-fits node_id with_vllm s =
    All-map
      (λ m e.
        every_sound (λ c. fits c (kind m.1)) (λ c h. h) _
          (every-lookup (well_read (sensors node_id with_vllm)) document_kinds m.0 (kind m.1)
            (every-well_read node_id with_vllm) e))
      (members s) (lookup-members s)
