-- ===== src/Protocol/Converter/Variant/Groups.antt =====
-- converter.hpp: `tag_group` and `group` on what they wrote, on an unknown tag and on a failing
-- alternative.
use emlabcpp.Prelude.{
  ℕ, ◌+◌, ◌^◌, ◌<◌, ◌≡◌, ◌≢◌, refl, sym, ap, arith, List, [], ◌∷◌, ◌++◌, append_assoc, length,
  length-append, drop, drop-append, All, ◌==◌, ==_iff, false, inl, inr, none, some,
}
use emlabcpp.Protocol.Serializer.{Endian}
use emlabcpp.Protocol.Converter.{badval_err, done, fail, used}
use emlabcpp.Protocol.Converter.Integer.{integer, integer-IsConverter, length-serialize_at}
use emlabcpp.Protocol.Converter.Scalar.{tag, deserialize_tag}
use emlabcpp.Protocol.Converter.Variant.{
  Alternatives, only, or_else, serialize_content, tag_of, tags, deserialize_tagged,
  deserialize_first, serialize_tag_group_at, deserialize_tag_group, tag_group, deserialize_group,
  group,
}
use emlabcpp.Protocol.Converter.Variant.Laws.{AreAlternatives, sole, more}

-- The tags fit their type, and no two alternatives have the same one.
abbrev pub AreTags : ℕ → List ℕ → Type 0
AreTags w [] = Unit {0}
AreTags w (id ∷ ids) = (id < 256 ^ w) × All (λ other. id ≢ other) ids × AreTags w ids

module _ (e : Endian) (w : ℕ) where
  module _ (id d : ℕ) (rest : List ℕ) (h : d < 256 ^ w) where
    tag_found :
        id ≡ d
        → (tag id (integer e w)).deserialize ((integer e w).serialize_at d ++ rest) ≡ done w tt
    unfolding deserialize_tag
    tag_found same = rw (
      (integer-IsConverter e w).round_trip d rest h tt,
      length-serialize_at e w d,
      (==_iff d id).1 (sym same),
    )

    tag_other :
        id ≢ d
        → (tag id (integer e w)).deserialize ((integer e w).serialize_at d ++ rest)
          ≡ fail 0 badval_err
    unfolding deserialize_tag
    tag_other other =
        let differs : (d == id) ≡ false = ground arith in
        rw ((integer-IsConverter e w).round_trip d rest h tt, differs)

  -- No alternative answers to a tag that is none of theirs.
  tagged_unknown :
      {T : Type 0} (alts : Alternatives T) (d : ℕ) (rest : List ℕ)
      → d < 256 ^ w
      → All (λ id. id ≢ d) (tags alts)
      → deserialize_tagged e w alts ((integer e w).serialize_at d ++ rest) ≡ none
  unfolding deserialize_tagged tags
  tagged_unknown (only id c) d rest h hs = rw (tag_other id d rest h hs.0, deserialize_tagged)
  tagged_unknown (or_else id c alts) d rest h hs =
      rw (tag_other id d rest h hs.0, deserialize_tagged, tagged_unknown alts d rest h hs.1)

  tag_of-fits :
      {T : Type 0} (alts : Alternatives T) (v : T) → AreTags w (tags alts) → tag_of alts v < 256 ^ w
  unfolding tag_of tags
  tag_of-fits (only id c) v h = h.0
  tag_of-fits (or_else id c alts) (inl v) h = h.0
  tag_of-fits (or_else id c alts) (inr v) h = tag_of-fits alts v h.2

  tag_of-All :
      {T : Type 0} (P : ℕ → Type 0) (alts : Alternatives T) (v : T)
      → All P (tags alts)
      → P (tag_of alts v)
  unfolding tag_of tags
  tag_of-All P (only id c) v h = h.0
  tag_of-All P (or_else id c alts) (inl v) h = h.0
  tag_of-All P (or_else id c alts) (inr v) h = tag_of-All P alts v h.1

  tagged_round_trip :
      {R : List ℕ → Type 0} {T : Type 0} {alts : Alternatives T} {V : T → Type 0}
      → AreAlternatives R T alts V
      → (v : T) (rest : List ℕ) → AreTags w (tags alts)
      → V v
      → R rest
      → deserialize_tagged e w alts
          ((integer e w).serialize_at (tag_of alts v) ++ (serialize_content alts v ++ rest))
        ≡ some (done (length (serialize_content alts v) + w) v)
  unfolding deserialize_tagged tags tag_of serialize_content
  tagged_round_trip (sole {id} {c} law) v rest ts h r =
      let content = c.serialize_at v in
      let head = (integer e w).serialize_at id in
      let inner : drop w (head ++ (content ++ rest)) ≡ content ++ rest =
        (rw (length-serialize_at e w id) at (drop-append head (content ++ rest))) in
      rw (
        tag_found id id (content ++ rest) ts.0 refl,
        deserialize_tagged,
        inner,
        law.round_trip v rest h r,
      )
  tagged_round_trip (more {id} {c} law laws) (inl v) rest ts h r =
      let content = c.serialize_at v in
      let head = (integer e w).serialize_at id in
      let inner : drop w (head ++ (content ++ rest)) ≡ content ++ rest =
        (rw (length-serialize_at e w id) at (drop-append head (content ++ rest))) in
      rw (
        tag_found id id (content ++ rest) ts.0 refl,
        deserialize_tagged,
        inner,
        law.round_trip v rest h r,
      )
  tagged_round_trip (more {id} {c} {alts} law laws) (inr v) rest ts h r =
      let d = tag_of alts v in
      rw (
        tag_other id d (serialize_content alts v ++ rest) (tag_of-fits alts v ts.2)
            (tag_of-All (λ other. id ≢ other) alts v ts.1),
        deserialize_tagged,
        tagged_round_trip laws v rest ts.2 h r,
      )

  module _ {T : Type 0} (alts : Alternatives T) (initial : T) where
    -- If the alternatives of a tag group fulfil the contract of a converter and their tags fit
    -- their type and are distinct, a valid value that is written before what the alternatives allow
    -- is read back, and the bytes used are those written.
    pub tag_group_round_trip :
        {R : List ℕ → Type 0} {V : T → Type 0} (v : T) (rest : List ℕ)
        → AreAlternatives R T alts V
        → AreTags w (tags alts)
        → V v
        → R rest
        → (tag_group e w alts initial).deserialize
            ((tag_group e w alts initial).serialize_at v ++ rest)
          ≡ done (length ((tag_group e w alts initial).serialize_at v)) v
    unfolding serialize_tag_group_at deserialize_tag_group
    tag_group_round_trip v rest laws ts h r =
        let head = (integer e w).serialize_at (tag_of alts v) in
        let content = serialize_content alts v in
        rw (append_assoc, tagged_round_trip laws v rest ts h r, deserialize_tag_group)
          (ap (λ n. done n v)
            (omega (arith, length-append head content, length-serialize_at e w (tag_of alts v))))

    -- A message whose tag fits its type and is that of no alternative of the tag group is reported
    -- as converted, with no byte used, and the reference keeps the value that it had.
    pub tag_group_unknown :
        (d : ℕ) (rest : List ℕ)
        → d < 256 ^ w
        → All (λ id. id ≢ d) (tags alts)
        → (tag_group e w alts initial).deserialize ((integer e w).serialize_at d ++ rest)
          ≡ done 0 initial
    unfolding deserialize_tag_group
    tag_group_unknown d rest h hs = rw (tagged_unknown alts d rest h hs, deserialize_tag_group)

-- The alternatives before that of the item use no byte of the message.
unfoldable pub Skips : {T : Type 0} → Alternatives T → T → List ℕ → Type 0
Skips (only id c) v msg = Unit {0}
Skips (or_else id c alts) (inl v) msg = Unit {0}
Skips (or_else id c alts) (inr v) msg = (used (c.deserialize msg) ≡ 0) × Skips alts v msg

first_round_trip :
    {R : List ℕ → Type 0} {T : Type 0} {alts : Alternatives T} {V : T → Type 0}
    → AreAlternatives R T alts V
    → (v : T) (rest : List ℕ) → V v
    → R rest
    → length (serialize_content alts v) ≢ 0
    → Skips alts v (serialize_content alts v ++ rest)
    → deserialize_first alts (serialize_content alts v ++ rest)
      ≡ some (done (length (serialize_content alts v)) v)
unfolding deserialize_first serialize_content Skips
first_round_trip (sole law) v rest h r n s = ground (arith, law.round_trip v rest h r)
first_round_trip (more law laws) (inl v) rest h r n s = ground (arith, law.round_trip v rest h r)
first_round_trip (more {c} {alts} law laws) (inr v) rest h r n s =
    ground (arith, first_round_trip laws v rest h r n s.1)

module _ {T : Type 0} {alts : Alternatives T} {V : T → Type 0} {R : List ℕ → Type 0} where
  -- If the alternatives of a group fulfil the contract of a converter, a valid value is read back
  -- as it was written, if it takes a byte at least and no alternative before its own uses a byte of
  -- the message.
  pub group_round_trip :
      (laws : AreAlternatives R T alts V) (v : T) (rest : List ℕ)
      → V v
      → R rest
      → length ((group alts).serialize_at v) ≢ 0
      → Skips alts v ((group alts).serialize_at v ++ rest)
      → (group alts).deserialize ((group alts).serialize_at v ++ rest)
        ≡ done (length ((group alts).serialize_at v)) v
  unfolding deserialize_group
  group_round_trip laws v rest h r n s =
      rw (first_round_trip laws v rest h r n s, deserialize_group)
