-- ===== src/Protocol/Roundtrip/Publish.antt =====
-- The message that publishes the memory of tensors, against the map that it carries.
use Prim.Native.String.{String}
use text.Mathlib.TextEquality.{eq_iff}
use asystem_astate.Base.{
  ◌^◌, ◌<◌, ◌≡◌, refl, ap, sym, ◌∙◌, Bool, true, false, ◌||◌, inl, inr, Bool-cases, if◌then◌else◌,
  Option, none, some, List, [], ◌∷◌, ◌++◌, arith,
}
use asystem_astate.Shard.Types.{ShardedKey}
use asystem_astate.Protocol.Json.{
  Json, IsJson, is_some, is_listed, assigned, check_required_field, check_field_type,
}
use asystem_astate.Protocol.Keys.{same_key}
use asystem_astate.Protocol.Publish.{
  TensorMemoryInfo, InfoMap, lookup, PublishMessage, key_text, publish_object, publish_to_json,
  read_metas, publish_from_json,
}
use asystem_astate.Protocol.Roundtrip.Nodes.{IsNode, accepts, node-read, node-type}
use asystem_astate.Protocol.Roundtrip.Entries.{
  AreInfos, lookup-append, Written, write-infos, Encodes, neither, both, Written-Encodes, find-name,
}
use asystem_astate.Protocol.Roundtrip.Keys.{
  IsKey, same_key-eq, key-read, parse-text, same_text-text,
}

module _ (json : Json) (laws : IsJson json) where
  listed-here : (name : String) (names : List String) → is_listed name (name ∷ names) ≡ true
  listed-here name names = rw ((eq_iff name name).1 refl) refl

  listed-more :
      (n name : String) (names : List String)
      → is_listed n names ≡ true
      → is_listed n (name ∷ names) ≡ true
  listed-more n name names h = ground (arith, h)

  -- What the map holds for a key after an entry is added.
  choose :
      (infos before : InfoMap) (k key : ShardedKey) (info : TensorMemoryInfo) (listed : Bool)
      → lookup k infos none ≡ some info
      → (if listed then lookup key infos none else lookup key (before ++ (k, info) ∷ []) none)
        ≡ (if same_key k key || listed then lookup key infos none else lookup key before none)
  choose infos before k key info true l = ground arith
  choose infos before k key info false l = elim (Bool-cases (same_key k key)) [
    | inl same ↦
        rw (lookup-append key before k info none, same)
          (sym l ∙ ap (λ x. lookup x infos none) (same_key-eq k key same))
    | inr differ ↦ rw (lookup-append key before k info none, differ) refl
  ]

  -- Reading the names of a list puts what the map holds for their keys in place.
  read-names :
      (infos : InfoMap) (fs : List (String × json.Value))
      → Written json laws infos fs
      → (key : ShardedKey) → IsKey key
      → (names : List String) (before : InfoMap)
      → ((name : String) → is_listed name names ≡ true → is_some (assigned name fs none) ≡ true)
      → (after : InfoMap) × (read_metas json (json.object fs) names before ≡ some after)
        × (lookup key after none ≡ (
            if is_listed (key_text json key) names
            then lookup key infos none
            else lookup key before none))
  unfolding read_metas
  read-names infos fs w key hk [] before h = (before, refl, refl)
  read-names infos fs w key hk (name ∷ names) before h =
      let f = find-name json laws infos fs w name (h name (listed-here name names)) in
      let (after, e, q) =
        read-names infos fs w key hk names (before ++ (f.key, f.info) ∷ [])
          (λ n m. h n (listed-more n name names m)) in
      (
        after,
        rw (← f.text) (
            rw
              (
                parse-text json laws f.key,
                key-read json laws f.key f.is_key,
                laws.member_object,
                f.text,
                f.member_value,
                f.value_read,
                e,
              )
              refl),
        q
            ∙ rw (← f.text) (
                rw (same_text-text json laws f.key key f.is_key hk) (
                  choose infos before f.key key f.info (is_listed (key_text json key) names)
                    f.held)),
      )

  encoded-choice :
      {v : Option json.Value} {i : Option TensorMemoryInfo}
      → Encodes json laws v i
      → (if is_some v then i else none) ≡ i
  encoded-choice neither = refl
  encoded-choice (both v info r) = refl

  -- If the ports of the node are between 1 and 65535, the numbers have the widths of their types, no
  -- memory region is empty, and each key has as many offsets as dimensions, then the message is
  -- written and read back with its sequence number, its node, and a map that holds the same for
  -- every such key, in whatever order the members are read.
  pub publish-read :
      (msg : PublishMessage) (key : ShardedKey)
      → msg.seq_id < 2 ^ 64
      → IsNode msg.node_info
      → accepts msg.node_info ≡ true
      → AreInfos msg.tensor_rdma_metas
      → IsKey key
      → (v : json.Value) × (msg' : PublishMessage) × (publish_to_json json msg ≡ some v)
        × (publish_from_json json v ≡ some msg')
        × (msg'.seq_id ≡ msg.seq_id)
        × (msg'.node_info ≡ msg.node_info)
        × (lookup key msg'.tensor_rdma_metas none ≡ lookup key msg.tensor_rdma_metas none)
  unfolding publish_object publish_to_json publish_from_json lookup check_required_field
      check_field_type
  publish-read msg key s n a h hk =
      let (fs, e, w) = write-infos json laws msg.tensor_rdma_metas h in
      let names = json.member_names (json.object fs) in
      let (after, r, q) =
        read-names msg.tensor_rdma_metas fs w key hk names []
          (λ name m. sym (laws.names_object fs name) ∙ m) in
      (
        publish_object json msg fs,
        record { seq_id = msg.seq_id; node_info = msg.node_info; tensor_rdma_metas = after },
        rw e refl,
        simp (
          laws.is_member_object,
          laws.member_object,
          laws.type_int64,
          node-type json laws,
          laws.type_object,
          laws.as_int64_int64 msg.seq_id s,
          node-read json laws msg.node_info n,
          a,
          r,
        ),
        refl,
        refl,
        q
            ∙ rw (laws.names_object fs (key_text json key)) (
                encoded-choice
                  (Written-Encodes json laws key hk msg.tensor_rdma_metas fs w none none neither)),
      )
