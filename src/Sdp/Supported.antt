-- ===== src/Sdp/Supported.antt =====
-- SdpInfo.cpp, `processSdp`: the invariant of a description's codec table, payloads and maps.
use erizo.Base.{
  ℕ, ◌≡◌, refl, Bool, true, false, ◌⊎◌, inl, inr, List, [], ◌∷◌, ◌++◌, Bytes, arith, ◌==◌,
  if◌then◌else◌, subst, sym, ◌∙◌, Bool-cases, ==_iff,
}
use erizo.Sdp.PtMap.{PtMap, put, at, contains, at-put, contains-put}
use erizo.Sdp.Types.{MediaType, RtpMap, SdpInfo}
use erizo.Sdp.Codecs.{internal_codecs, new_sdp, is_codec}
use erizo.Sdp.Lines.{map_codecs, add_payload}

-- A payload type of the table.
abbrev pub HasType : List RtpMap → ℕ → Type 0
HasType [] n = ⊥
HasType (rtp ∷ table) n = (rtp.payload_type ≡ n) ⊎ HasType table n

-- A name and a rate of the table.
abbrev pub HasCodec : List RtpMap → Bytes → ℕ → Type 0
HasCodec [] name clock = ⊥
HasCodec (rtp ∷ table) name clock = (is_codec name clock rtp ≡ true) ⊎ HasCodec table name clock

abbrev pub AllSupported : List RtpMap → List RtpMap → Type 0
AllSupported table [] = Unit {0}
AllSupported table (rtp ∷ rest) =
    HasCodec table rtp.encoding_name rtp.clock_rate × AllSupported table rest

-- Every payload is a codec of the table; every payload type maps to one of the table, and only those
-- of the table map back.
pub record IsSupported (sdp : SdpInfo) : Type 0 where
  pub table : sdp.internal_payload_vector ≡ internal_codecs
  pub payloads : AllSupported internal_codecs sdp.payload_vector
  pub out_in :
      (n : ℕ)
      → contains sdp.out_in_pt_map n ≡ true
      → HasType internal_codecs (at sdp.out_in_pt_map n)
  pub in_out : (n : ℕ) → contains sdp.in_out_pt_map n ≡ true → HasType internal_codecs n

pub new_sdp-IsSupported : IsSupported new_sdp
unfolding new_sdp contains
new_sdp-IsSupported = record { table = refl; payloads = tt; out_in = λ n e. cc; in_out = λ n e. cc }

AllSupported-append :
    (table ps : List RtpMap) (rtp : RtpMap)
    → AllSupported table ps
    → HasCodec table rtp.encoding_name rtp.clock_rate
    → AllSupported table (ps ++ (rtp ∷ []))
AllSupported-append table [] rtp h k = (k, tt)
AllSupported-append table (p ∷ ps) rtp h k = (h.0, AllSupported-append table ps rtp h.1 k)

-- A map whose keys satisfy a predicate, and one whose values do.
abbrev KeysIn : (ℕ → Type 0) → PtMap → Type 0
KeysIn P m = (n : ℕ) → contains m n ≡ true → P n

abbrev ValuesIn : (ℕ → Type 0) → PtMap → Type 0
ValuesIn P m = (n : ℕ) → contains m n ≡ true → P (at m n)

put-KeysIn : (P : ℕ → Type 0) (m : PtMap) (k v : ℕ) → P k → KeysIn P m → KeysIn P (put m k v)
put-KeysIn P m k v p h n e = elim (Bool-cases (k == n)) [
  | inl q ↦ subst P ((==_iff k n).0 q) p
  | inr q ↦ h n (ground (arith, contains-put m k n v))
]

put-ValuesIn : (P : ℕ → Type 0) (m : PtMap) (k v : ℕ) → P v → ValuesIn P m → ValuesIn P (put m k v)
put-ValuesIn P m k v p h n e = elim (Bool-cases (k == n)) [
  | inl q ↦ subst P (ground (arith, at-put m k n v)) p
  | inr q ↦ subst P (ground (arith, at-put m k n v)) (h n (ground (arith, contains-put m k n v)))
]

-- The maps of a description, and that both go to a table.
abbrev MapsTo : List RtpMap → SdpInfo → Type 0
MapsTo table sdp =
    ValuesIn (HasType table) sdp.out_in_pt_map × KeysIn (HasType table) sdp.in_out_pt_map

-- `table` is what is left of the whole one.
abbrev Includes : List RtpMap → List RtpMap → Type 0
Includes whole table = (n : ℕ) → HasType table n → HasType whole n

MapsTo-if :
    (whole : List RtpMap) (b : Bool) (x y : SdpInfo × Bool)
    → MapsTo whole x.0
    → MapsTo whole y.0
    → MapsTo whole (if b then x else y).0
MapsTo-if whole true x y h k = h
MapsTo-if whole false x y h k = k

map_codecs-MapsTo :
    (whole table : List RtpMap) (name : Bytes) (clock pt : ℕ) (sdp : SdpInfo)
    → Includes whole table
    → MapsTo whole sdp
    → MapsTo whole (map_codecs table name clock pt sdp).0
unfolding map_codecs
map_codecs-MapsTo whole [] name clock pt sdp i h = h
map_codecs-MapsTo whole (rtp ∷ table) name clock pt sdp i h =
    let own : HasType whole rtp.payload_type = i rtp.payload_type (inl refl) in
    let rest : Includes whole table = λ n k. i n (inr k) in
    MapsTo-if whole (is_codec name clock rtp) _ _
      (map_codecs-MapsTo whole table name clock pt
        (record sdp {
          out_in_pt_map = put sdp.out_in_pt_map pt rtp.payload_type;
          in_out_pt_map = put sdp.in_out_pt_map rtp.payload_type pt;
        })
        rest
        (
          put-ValuesIn (HasType whole) sdp.out_in_pt_map pt rtp.payload_type own h.0,
          put-KeysIn (HasType whole) sdp.in_out_pt_map rtp.payload_type pt own h.1,
        ))
      (map_codecs-MapsTo whole table name clock pt sdp rest h)

-- The flag tells that the table has the codec; the other fields stay.
map_codecs_found :
    (table : List RtpMap) (name : Bytes) (clock pt : ℕ) (sdp : SdpInfo)
    → (map_codecs table name clock pt sdp).1 ≡ true
    → HasCodec table name clock
unfolding map_codecs
map_codecs_found [] name clock pt sdp e = cc
map_codecs_found (rtp ∷ table) name clock pt sdp e = elim (Bool-cases (is_codec name clock rtp)) [
  | inl q ↦ inl q
  | inr q ↦ inr (map_codecs_found table name clock pt sdp (ground arith))
]

map_codecs_kept :
    (table : List RtpMap) (name : Bytes) (clock pt : ℕ) (sdp : SdpInfo)
    → ((map_codecs table name clock pt sdp).0.payload_vector ≡ sdp.payload_vector)
      × ((map_codecs table name clock pt sdp).0.internal_payload_vector
          ≡ sdp.internal_payload_vector)
unfolding map_codecs
map_codecs_kept [] name clock pt sdp = (refl, refl)
map_codecs_kept (rtp ∷ table) name clock pt sdp = ground (
  arith,
  map_codecs_kept table name clock pt sdp,
  map_codecs_kept table name clock pt (record sdp {
    out_in_pt_map = put sdp.out_in_pt_map pt rtp.payload_type;
    in_out_pt_map = put sdp.in_out_pt_map rtp.payload_type pt;
  }),
)

mapped-IsSupported :
    (pt : ℕ) (name : Bytes) (clock : ℕ) (sdp : SdpInfo)
    → IsSupported sdp
    → IsSupported (map_codecs sdp.internal_payload_vector name clock pt sdp).0
mapped-IsSupported pt name clock sdp h =
    let kept = map_codecs_kept sdp.internal_payload_vector name clock pt sdp in
    let both =
      map_codecs-MapsTo internal_codecs sdp.internal_payload_vector name clock pt sdp
        (subst (Includes internal_codecs) (sym h.table) (λ n k. k)) (h.out_in, h.in_out) in
    record {
      table = kept.1 ∙ h.table;
      payloads = subst (AllSupported internal_codecs) (sym kept.0) h.payloads;
      out_in = both.0;
      in_out = both.1;
    }

IsSupported-if :
    (b : Bool) (x y : SdpInfo)
    → (b ≡ true → IsSupported x)
    → IsSupported y
    → IsSupported (if b then x else y)
IsSupported-if true x y h k = h refl
IsSupported-if false x y h k = k

pub add_payload-IsSupported :
    (pt : ℕ) (name : Bytes) (clock : ℕ) (media : MediaType) (sdp : SdpInfo)
    → IsSupported sdp
    → IsSupported (add_payload pt name clock media sdp)
unfolding add_payload
add_payload-IsSupported pt name clock media sdp h =
    let base = mapped-IsSupported pt name clock sdp h in
    IsSupported-if (map_codecs sdp.internal_payload_vector name clock pt sdp).1 _ _
      (λ e. record {
        table = base.table;
        payloads = AllSupported-append internal_codecs _ _ base.payloads (
            subst (λ t. HasCodec t name clock) h.table
              (map_codecs_found sdp.internal_payload_vector name clock pt sdp e));
        out_in = base.out_in;
        in_out = base.in_out;
      })
      base
