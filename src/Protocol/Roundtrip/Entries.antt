-- ===== src/Protocol/Roundtrip/Entries.antt =====
-- The entries of the map from keys to the memory of tensors, and the members that they become.
use Prim.Native.String.{String}
use text.Mathlib.Text.{◌==◌ as same_text}
use text.Mathlib.TextEquality.{eq_iff}
use asystem_astate.Base.{
  ◌^◌, ◌<◌, ◌≡◌, refl, Bool, true, false, inl, inr, Bool-cases, if◌then◌else◌, Option, none, some,
  List, [], ◌∷◌, ◌++◌, All, arith,
}
use asystem_astate.Shard.Types.{ShardedKey}
use asystem_astate.Protocol.Json.{
  Json, IsJson, is_some, assigned, check_required_field, check_field_type,
}
use asystem_astate.Protocol.Decimal.{to_string, stoull-to_string}
use asystem_astate.Protocol.Keys.{same_key}
use asystem_astate.Protocol.Publish.{
  TensorMemoryInfo, InfoMap, lookup, check_size, info_to_json, info_from_json, key_text,
  metas_to_fields,
}
use asystem_astate.Protocol.Roundtrip.Tensors.{IsTensor, tensor-read}
use asystem_astate.Protocol.Roundtrip.Keys.{IsKey, same_text-text}

pub record IsInfo (info : TensorMemoryInfo) : Type 0 where
  pub addr_word : info.addr < 2 ^ 64
  pub size_word : info.size < 2 ^ 64
  pub not_empty : 0 < info.size
  pub tensor : IsTensor info.atensor_meta

abbrev pub AreInfos : InfoMap → Type 0
AreInfos infos = All (λ (e : ShardedKey × TensorMemoryInfo). IsKey e.0 × IsInfo e.1) infos

pub lookup-append :
    (key : ShardedKey) (infos : InfoMap) (k : ShardedKey) (info : TensorMemoryInfo)
    (last : Option TensorMemoryInfo)
    → lookup key (infos ++ (k, info) ∷ []) last
      ≡ (if same_key k key then some info else lookup key infos last)
unfolding lookup
lookup-append key [] k info last = refl
lookup-append key (e ∷ infos) k info last = lookup-append key infos k info _

module _ (json : Json) (laws : IsJson json) where
  info-read :
      (info : TensorMemoryInfo)
      → IsInfo info
      → (v : json.Value) × (info_to_json json info ≡ some v) × (info_from_json json v ≡ some info)
  unfolding info_from_json info_to_json check_size check_required_field check_field_type
  info-read info h =
      let (t, e, r, o) = tensor-read json laws info.atensor_meta h.tensor in
      (
        json.object (
            ("addr", json.of_string (to_string info.addr))
            ∷ ("size", json.of_uint64 info.size)
            ∷ ("rkey", json.of_string info.rkey)
            ∷ ("tmeta", t)
            ∷ []),
        rw e refl,
        simp
            (
              laws.is_member_object,
              laws.member_object,
              laws.type_string,
              o,
              laws.as_string_string,
              laws.as_uint64_uint64 info.size h.size_word,
              stoull-to_string info.addr h.addr_word,
              r,
            )
            (ground (arith, h.not_empty)),
      )

  -- The object that the entries of a map are written to.
  pub data Written : InfoMap → List (String × json.Value) → Type 0 where
    nothing : Written [] []
    entry :
        (k : ShardedKey) (info : TensorMemoryInfo) (v : json.Value) (infos : InfoMap)
        (fs : List (String × json.Value))
        → IsKey k
        → info_from_json json v ≡ some info
        → Written infos fs
        → Written ((k, info) ∷ infos) ((key_text json k, v) ∷ fs)

  pub write-infos :
      (infos : InfoMap)
      → AreInfos infos
      → (fs : List (String × json.Value)) × (metas_to_fields json infos ≡ some fs)
        × Written infos fs
  unfolding metas_to_fields
  write-infos [] h = ([], refl, nothing)
  write-infos (e ∷ infos) h =
      let (v, w, r) = info-read e.1 h.0.1 in
      let (fs, x, rest) = write-infos infos h.1 in
      ((key_text json e.0, v) ∷ fs, rw (w, x) refl, entry e.0 e.1 v infos fs h.0.0 r rest)

  -- A member stands for the information of a tensor.
  pub data Encodes : Option json.Value → Option TensorMemoryInfo → Type 0 where
    neither : Encodes none none
    both :
        (v : json.Value) (info : TensorMemoryInfo)
        → info_from_json json v ≡ some info
        → Encodes (some v) (some info)

  Encodes-if :
      (b : Bool) {v v' : Option json.Value} {i i' : Option TensorMemoryInfo}
      → Encodes v i
      → Encodes v' i'
      → Encodes (if b then v else v') (if b then i else i')
  Encodes-if true h k = h
  Encodes-if false h k = k

  -- The member of a key's text is what the map holds for the key.
  pub Written-Encodes :
      (key : ShardedKey)
      → IsKey key
      → (infos : InfoMap) (fs : List (String × json.Value)) → Written infos fs
      → (v : Option json.Value) (i : Option TensorMemoryInfo) → Encodes v i
      → Encodes (assigned (key_text json key) fs v) (lookup key infos i)
  unfolding lookup
  Written-Encodes key h [] [] nothing v i e = e
  Written-Encodes key h _ _ (entry k info x infos fs hk r w) v i e =
      rw (same_text-text json laws k key hk h)
        (Written-Encodes key h infos fs w _ _ (Encodes-if (same_key k key) (both x info r) e))

  -- The keys of the members.
  named :
      (name : String) (infos : InfoMap) (fs : List (String × json.Value))
      → Written infos fs
      → (v : Option json.Value) → is_some (assigned name fs v) ≡ true
      → is_some v ≡ false
      → (k : ShardedKey) × IsKey k × (key_text json k ≡ name)
  named name _ _ nothing v s n = absurd (cc (s, n))
  named name _ _ (entry k info x infos fs hk r w) v s n =
      elim (Bool-cases (same_text (key_text json k) name)) [
        | inl same ↦ (k, hk, (eq_iff (key_text json k) name).0 same)
        | inr differ ↦ named name infos fs w v (rw differ at s) n
      ]

  -- The entry that is read for a name.
  pub record Found (infos : InfoMap) (fs : List (String × json.Value)) (name : String)
      : Type 0 where
    pub key : ShardedKey
    pub info : TensorMemoryInfo
    pub value : json.Value
    pub is_key : IsKey key
    pub text : key_text json key ≡ name
    pub member_value : assigned name fs none ≡ some value
    pub value_read : info_from_json json value ≡ some info
    pub held : lookup key infos none ≡ some info

  pub find-name :
      (infos : InfoMap) (fs : List (String × json.Value))
      → Written infos fs
      → (name : String) → is_some (assigned name fs none) ≡ true
      → Found infos fs name
  find-name infos fs w name s =
      let (k, h, t) = named name infos fs w none s refl in
      go k h t (assigned (key_text json k) fs none) (lookup k infos none)
        (Written-Encodes k h infos fs w none none neither) refl refl
    where
      go :
          (k : ShardedKey)
          → IsKey k
          → key_text json k ≡ name
          → (v : Option json.Value) (i : Option TensorMemoryInfo) → Encodes v i
          → assigned (key_text json k) fs none ≡ v
          → lookup k infos none ≡ i
          → Found infos fs name
      go k h t _ _ neither e l = absurd (cc (s, rw t at e))
      go k h t _ _ (both v info r) e l = record {
        key = k;
        info = info;
        value = v;
        is_key = h;
        text = t;
        member_value = rw t at e;
        value_read = r;
        held = l;
      }
