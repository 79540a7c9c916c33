-- ===== src/Wire/Roundtrip.antt =====
-- What is written is read back.
use asystem_astate.Base.{
  ℕ, zero, suc, ◌+◌, ◌*◌, ◌%◌, ◌^◌, ◌<◌, ◌≤◌, Bool, true, false, none, some, List, [], ◌∷◌, ◌++◌,
  length, length-append, append_assoc, All, ◌≡◌, refl, sym, ◌∙◌, ap, subst, some-injective, arith,
  lt→ltb,
}
use asystem_astate.Wire.Codec.{
  put-get-int, length-put_int, put-get-bool, put_int-low, put-get-array,
}
use asystem_astate.Wire.Meta.{TensorMeta, total_meta_size, array_size, storage_meta_size}
use asystem_astate.Wire.Bytes.{put_int, put_bool, chain, get_array}
use asystem_astate.Wire.Serialize.{
  fields, written, overwrite, serialize_tensor_meta, zeros, serialize_to_string, check_dim_num,
  deserialize_tensor_meta, deserialize_from_string,
}

-- A description whose fields have the widths of their types, and whose arrays have `dim_num`
-- elements.
pub record IsMeta (t : TensorMeta) : Type 0 where
  pub dims : t.dim_num < 2 ^ 31
  pub sizes : length t.size ≡ t.dim_num
  pub strides : length t.stride ≡ t.dim_num
  pub size_words : All (λ (x : ℕ). x < 2 ^ 64) t.size
  pub stride_words : All (λ (x : ℕ). x < 2 ^ 64) t.stride
  pub dtype_byte : t.dtype < 2 ^ 8
  pub index_byte : t.storage.device.device_index < 2 ^ 8
  pub type_byte : t.storage.device.device_type < 2 ^ 8

-- What a description is after the round trip: without its storage offset, and with the low 32 bits
-- of its storage size.
abbrev pub restored : TensorMeta → TensorMeta
restored t = record t {
  storage_offset = 0;
  storage = record { storage_size = t.storage.storage_size % 2 ^ 32; device = t.storage.device };
}

chain-rest : (cs : List (List ℕ)) (rest : List ℕ) → chain cs [] ++ rest ≡ chain cs rest
chain-rest [] rest = refl
chain-rest (c ∷ cs) rest =
    append_assoc c (chain cs []) rest ∙ ap (λ (bs : List ℕ). c ++ bs) (chain-rest cs rest)

abbrev total_length : List (List ℕ) → ℕ
total_length [] = 0
total_length (c ∷ cs) = length c + total_length cs

length-chain : (cs : List (List ℕ)) → length (chain cs []) ≡ total_length cs
length-chain [] = refl
length-chain (c ∷ cs) =
    length-append c (chain cs []) ∙ ap (λ (n : ℕ). length c + n) (length-chain cs)

length-put_bool : (b : Bool) → length (put_bool b) ≡ 1
length-put_bool true = refl
length-put_bool false = refl

-- The fields are 15 bytes fewer than the total size.
length-fields :
    (t : TensorMeta) (ns ss : List ℕ)
    → length ns ≡ 8 * t.dim_num
    → length ss ≡ 8 * t.dim_num
    → length (chain (fields t ns ss) []) + 15 ≡ total_meta_size t
unfolding total_meta_size array_size storage_meta_size
length-fields t ns ss e f = rw (length-chain (fields t ns ss)) (
    rw
      (
        length-put_int 4 t.dim_num,
        length-put_int 1 t.dtype,
        length-put_int 4 t.storage.storage_size,
        length-put_int 1 t.storage.device.device_index,
        length-put_int 1 t.storage.device.device_type,
        length-put_bool t.conj,
        length-put_bool t.neg,
        length-put_bool t.requires_grad,
        e,
        f,
      )
      (omega arith))

-- The fields behind the arrays.
abbrev scalars : TensorMeta → List ℕ → List ℕ
scalars t rest =
    chain
      (put_int 1 t.dtype
        ∷ put_bool t.conj
        ∷ put_bool t.neg
        ∷ put_bool t.requires_grad
        ∷ put_int 4 t.storage.storage_size
        ∷ put_int 1 t.storage.device.device_index
        ∷ put_int 1 t.storage.device.device_type
        ∷ [])
      rest

read-fields :
    (t : TensorMeta) (ns ss rest : List ℕ)
    → IsMeta t
    → get_array t.dim_num (ns ++ (ss ++ scalars t rest)) ≡ some (t.size, ss ++ scalars t rest)
    → get_array t.dim_num (ss ++ scalars t rest) ≡ some (t.stride, scalars t rest)
    → deserialize_tensor_meta (chain (fields t ns ss) rest) ≡ some (restored t)
unfolding deserialize_tensor_meta check_dim_num
read-fields t ns ss rest h g g' =
    let device = t.storage.device in
    let low = t.storage.storage_size % 2 ^ 32 in
    let tail₃ = put_int 1 device.device_type ++ rest in
    let tail₂ = put_int 1 device.device_index ++ tail₃ in
    let tail₁ = put_int 4 t.storage.storage_size ++ tail₂ in
    let grad = put_bool t.requires_grad ++ tail₁ in
    let neg = put_bool t.neg ++ grad in
    rw
      (
        put-get-int 4 t.dim_num (ns ++ (ss ++ scalars t rest)) (omega (arith, h.dims)),
        lt→ltb t.dim_num (2 ^ 31) h.dims,
        g,
        g',
      )
      (rw (put-get-int 1 t.dtype (put_bool t.conj ++ neg) h.dtype_byte) (
        rw (put-get-bool t.conj neg, put-get-bool t.neg grad, put-get-bool t.requires_grad tail₁)
          (rw (put_int-low t.storage.storage_size) (
            rw
              (
                put-get-int 4 low tail₂ (omega arith),
                put-get-int 1 device.device_index tail₃ h.index_byte,
                put-get-int 1 device.device_type rest h.type_byte,
              )
              refl))))

written-read :
    (t : TensorMeta) (rest : List ℕ)
    → IsMeta t
    → (bs : List ℕ) × (written t ≡ some bs)
      × (length bs + 15 ≡ total_meta_size t)
      × (deserialize_tensor_meta (bs ++ rest) ≡ some (restored t))
unfolding written
written-read t rest h =
    let (ss, p, g, l) =
      put-get-array t.dim_num t.stride (scalars t rest) h.strides h.stride_words in
    let (ns, p', g', l') =
      put-get-array t.dim_num t.size (ss ++ scalars t rest) h.sizes h.size_words in
    (
      chain (fields t ns ss) [],
      rw (p', p) refl,
      length-fields t ns ss l' l,
      rw (chain-rest (fields t ns ss) rest) (read-fields t ns ss rest h g' g),
    )

overwrite-append :
    (bs buffer : List ℕ)
    → length bs ≤ length buffer
    → (rest : List ℕ) × (overwrite bs buffer ≡ some (bs ++ rest))
      × (length rest + length bs ≡ length buffer)
unfolding overwrite
overwrite-append [] buffer l = (buffer, refl, omega arith)
overwrite-append (b ∷ bs) [] l = absurd (omega (arith, l))
overwrite-append (b ∷ bs) (c ∷ buffer) l =
    let (rest, e, k) = overwrite-append bs buffer (omega (arith, l)) in
    (rest, rw e refl, omega (arith, k))

-- If the fields of a description have the widths of their types and its arrays `dim_num` elements,
-- then writing it to a buffer of at least its total size stays within the buffer, returns the total
-- size, and reading the buffer gives the description without its storage offset and with the low 32
-- bits of its storage size.
pub serialize-deserialize :
    (t : TensorMeta) (buffer : List ℕ)
    → IsMeta t
    → total_meta_size t ≤ length buffer
    → (buffer' : List ℕ) × (serialize_tensor_meta t buffer ≡ some (buffer', total_meta_size t))
      × (length buffer' ≡ length buffer)
      × (deserialize_tensor_meta buffer' ≡ some (restored t))
unfolding serialize_tensor_meta
serialize-deserialize t buffer h l =
    let (bs, e, k, _) = written-read t [] h in
    let (rest, o, m) = overwrite-append bs buffer (omega (arith, k, l)) in
    let (bs', e', k', r) = written-read t rest h in
    (
      bs ++ rest,
      rw (e, o) refl,
      rw (length-append bs rest) (omega (arith, m)),
      subst (λ (x : List ℕ). deserialize_tensor_meta (x ++ rest) ≡ some (restored t))
          (some-injective bs' bs (sym e' ∙ e)) r,
    )

deserialize_from_string_fails :
    (fuel : ℕ) (text : List ℕ) → 0 < length text → deserialize_from_string fuel text ≡ none
unfolding deserialize_from_string
deserialize_from_string_fails fuel [] l = absurd (omega (arith, l))
deserialize_from_string_fails zero (b ∷ text) l = refl
deserialize_from_string_fails (suc fuel) (b ∷ text) l =
    deserialize_from_string_fails fuel (b ∷ text) l

length-zeros : (n : ℕ) → length (zeros n) ≡ n
unfolding zeros
length-zeros zero = refl
length-zeros (suc n) = ap suc (length-zeros n)

-- Under the same conditions, the string that the string overload of SerializeTensorMeta returns has
-- the total size, and the buffer overload of DeserializeTensorMeta restores the description from
-- it, but the string overload does not return for it, with any fuel.
pub string_overload_diverges :
    (t : TensorMeta) (fuel : ℕ)
    → IsMeta t
    → (text : List ℕ) × (serialize_to_string t ≡ some text)
      × (length text ≡ total_meta_size t)
      × (deserialize_tensor_meta text ≡ some (restored t))
      × (deserialize_from_string fuel text ≡ none)
unfolding serialize_to_string total_meta_size storage_meta_size
string_overload_diverges t fuel h =
    let zs = zeros (total_meta_size t) in
    let (text, e, l, r) =
      serialize-deserialize t zs h (omega (arith, length-zeros (total_meta_size t))) in
    let size = l ∙ length-zeros (total_meta_size t) in
    (text, rw e refl, size, r, deserialize_from_string_fails fuel text (omega (arith, size)))
