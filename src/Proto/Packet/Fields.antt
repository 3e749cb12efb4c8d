-- ===== src/Proto/Packet/Fields.antt =====
-- Numbers and strings written to a packet and read from it in the same order.
use networkio.Base.{
  ◌>>=◌, then_eq, ℕ, ◌+◌, ◌≤◌, ◌<◌, ◌^◌, ◌≡◌, refl, ◌∙◌, ap, subst, sym, List, [], ◌∷◌, ◌++◌, map,
  Option, some, arith, length, length-append, append_assoc, take_all, append-nil,
}
use networkio.Base.Int.{u32}
use networkio.Memory.Shared.{Buffer}
use networkio.Proto.Wire.{to_bytes, length-to_bytes, of_bytes-to_bytes}
use networkio.Proto.Packet.{
  Packet, make, begin_read, read_data, read, read_string, string_body, write_data, write,
  write_string, read_bytesleft,
}
use networkio.Proto.Packet.State.{Writes, Reads, begin_read-Reads, make-Reads, bytesleft_eq}
use networkio.Proto.Packet.Reading.{read_data-Reads}
use networkio.Proto.Packet.Writing.{write_data-Writes}

-- A value of a type of `w` bytes, or a string.
pub data Field : Type 0 where
  num : ℕ → ℕ → Field
  str : List ℕ → Field

pub data Kind : Type 0 where
  number : ℕ → Kind
  string : Kind

abbrev pub kind_of : Field → Kind
kind_of (num w v) = number w
kind_of (str s) = string

-- The value fits its type, and the length of the string a `uint32_t`.
abbrev pub Fits : Field → Type 0
Fits (num w v) = v < 256 ^ w
Fits (str s) = length s < 2 ^ 32

abbrev pub AllFit : List Field → Type 0
AllFit [] = Unit {0}
AllFit (f ∷ fs) = Fits f × AllFit fs

-- The bytes that stand for a field.
abbrev pub encode : Field → List ℕ
encode (num w v) = to_bytes w v
encode (str s) = to_bytes 4 (length s) ++ s

abbrev pub encode_all : List Field → List ℕ
encode_all [] = []
encode_all (f ∷ fs) = encode f ++ encode_all fs

pub write_field : (ℕ → ℕ) → Packet → Field → Option Packet
write_field junk p (num w v) = write junk p w v
write_field junk p (str s) = write_string junk p s

pub write_fields : (ℕ → ℕ) → Packet → List Field → Option Packet
write_fields junk p [] = some p
write_fields junk p (f ∷ fs) = do p' ← write_field junk p f; write_fields junk p' fs

pub read_field : Packet → Kind → Option (Field × Packet)
read_field p (number w) = do (v, p') ← read p w; some (num w v, p')
read_field p string = do (s, p') ← read_string p; some (str s, p')

pub read_fields : Packet → List Kind → Option (List Field × Packet)
read_fields p [] = some ([], p)
read_fields p (k ∷ ks) = do
  (f, p') ← read_field p k
  (fs, p'') ← read_fields p' ks
  some (f ∷ fs, p'')

-- What has been written, with 4096 bytes of room behind it at most.
pub record Packed (p : Packet) (bs : List ℕ) : Type 0 where
  pub buf : Buffer
  pub writes : Writes p buf 0 bs
  pub spare : buf.m_size ≤ length bs + 4096

write_data-Packed :
    (junk : ℕ → ℕ) {p : Packet} {bs : List ℕ} (xs : List ℕ) (n : ℕ)
    → Packed p bs
    → n ≡ length xs
    → length bs + n + 4096 < 2 ^ 32
    → (p' : Packet) × (write_data junk p xs n ≡ some p') × Packed p' (bs ++ xs)
write_data-Packed junk {p} {bs} xs n w e lim =
    let (p', buf', runs, w', spare) =
      write_data-Writes junk xs n w.writes (omega arith) (omega (arith, w.spare)) in
    (
      p',
      runs,
      subst (λ t. Packed p' (bs ++ t)) (take_all n xs (omega arith))
          (record { buf = buf'; writes = w'; spare = omega (arith, w.spare) }),
    )

write_field-Packed :
    (junk : ℕ → ℕ) {p : Packet} {bs : List ℕ} (f : Field)
    → Packed p bs
    → Fits f
    → length bs + length (encode f) + 4096 < 2 ^ 32
    → (p' : Packet) × (write_field junk p f ≡ some p') × Packed p' (bs ++ encode f)
unfolding write_field write write_string
write_field-Packed junk (num w v) packed fits lim =
    write_data-Packed junk (to_bytes w v) w packed (sym (length-to_bytes w v))
      (omega (arith, length-to_bytes w v))
write_field-Packed junk {p} {bs} (str s) packed fits lim =
    let e : u32 (length s) ≡ length s = omega arith in
    let (p₁, e₁, w₁) =
      write_data-Packed junk (to_bytes 4 (length s)) 4 packed (sym (length-to_bytes 4 (length s)))
        (omega (arith, length-append (to_bytes 4 (length s)) s, length-to_bytes 4 (length s))) in
    let (p₂, e₂, w₂) = write_data-Packed junk s (length s) w₁ refl (
      omega (
        arith,
        length-append (to_bytes 4 (length s)) s,
        length-append bs (to_bytes 4 (length s)),
        length-to_bytes 4 (length s),
      )) in
    (
      p₂,
      then_eq _ (ap (λ k. write_data junk p (to_bytes 4 k) 4) e ∙ e₁)
          (ap (write_data junk p₁ s) e ∙ e₂),
      subst (Packed p₂) (append_assoc bs (to_bytes 4 (length s)) s) w₂,
    )

write_fields-Packed :
    (junk : ℕ → ℕ) (fs : List Field) {p : Packet} {bs : List ℕ}
    → Packed p bs
    → AllFit fs
    → length bs + length (encode_all fs) + 4096 < 2 ^ 32
    → (p' : Packet) × (write_fields junk p fs ≡ some p') × Packed p' (bs ++ encode_all fs)
unfolding write_fields
write_fields-Packed junk [] {p} {bs} w fits lim =
    (p, refl, subst (Packed p) (sym (append-nil bs)) w)
write_fields-Packed junk (f ∷ fs) {p} {bs} w (one, more) lim =
    let (p₁, e₁, w₁) =
      write_field-Packed junk f w one (omega (arith, length-append (encode f) (encode_all fs))) in
    let (p₂, e₂, w₂) =
      write_fields-Packed junk fs w₁ more
        (omega (arith, length-append (encode f) (encode_all fs), length-append bs (encode f))) in
    (p₂, then_eq _ e₁ e₂, subst (Packed p₂) (append_assoc bs (encode f) (encode_all fs)) w₂)

pub read-Reads :
    {p : Packet} {buf : Buffer} {o : ℕ} {xs zs : List ℕ} (n v : ℕ)
    → Reads p buf o xs (to_bytes n v ++ zs)
    → v < 256 ^ n
    → (p' : Packet) × (read p n ≡ some (v, p')) × Reads p' buf o (xs ++ to_bytes n v) zs
unfolding read
read-Reads {p} n v r h =
    let (p', e, r') = read_data-Reads r in
    (
      p',
      then_eq _ (ap (read_data p) (sym (length-to_bytes n v)) ∙ e)
          (ap (λ t. some (t, p')) (of_bytes-to_bytes n v h)),
      r',
    )

string_body-Reads :
    {p : Packet} {buf : Buffer} {o : ℕ} {xs zs : List ℕ} (s : List ℕ)
    → Reads p buf o xs (s ++ zs)
    → (p' : Packet) × (string_body p (length s) ≡ some (s, p')) × Reads p' buf o (xs ++ s) zs
unfolding string_body
string_body-Reads {p} {buf} {o} {xs} {zs} [] r =
    (p, refl, subst (λ t. Reads p buf o t zs) (sym (append-nil xs)) r)
string_body-Reads {p} {buf} {o} {xs} {zs} (c ∷ cs) r =
    let (p', e, r') = read_data-Reads r in (p', ground (arith, e), r')

read_field-Reads :
    {p : Packet} {buf : Buffer} {o : ℕ} {xs zs : List ℕ} (f : Field)
    → Reads p buf o xs (encode f ++ zs)
    → Fits f
    → (p' : Packet) × (read_field p (kind_of f) ≡ some (f, p')) × Reads p' buf o (xs ++ encode f) zs
unfolding read_field read_string
read_field-Reads (num w v) r fits =
    let (p', e, r') = read-Reads w v r fits in (p', then_eq _ e refl, r')
read_field-Reads {p} {buf} {o} {xs} {zs} (str s) r fits =
    let (p₁, e₁, r₁) =
      read-Reads 4 (length s)
        (subst (Reads p buf o xs) (append_assoc (to_bytes 4 (length s)) s zs) r) fits in
    let (p₂, e₂, r₂) = string_body-Reads s r₁ in
    (
      p₂,
      then_eq _ (then_eq _ e₁ e₂) refl,
      subst (λ t. Reads p₂ buf o t zs) (append_assoc xs (to_bytes 4 (length s)) s) r₂,
    )

read_fields-Reads :
    (fs : List Field) {p : Packet} {buf : Buffer} {o : ℕ} {xs zs : List ℕ}
    → Reads p buf o xs (encode_all fs ++ zs)
    → AllFit fs
    → (p' : Packet) × (read_fields p (map kind_of fs) ≡ some (fs, p'))
      × Reads p' buf o (xs ++ encode_all fs) zs
unfolding read_fields
read_fields-Reads [] {p} {buf} {o} {xs} {zs} r fits =
    (p, refl, subst (λ t. Reads p buf o t zs) (sym (append-nil xs)) r)
read_fields-Reads (f ∷ fs) {p} {buf} {o} {xs} {zs} r (one, more) =
    let (p₁, e₁, r₁) =
      read_field-Reads f (subst (Reads p buf o xs) (append_assoc (encode f) (encode_all fs) zs) r)
        one in
    let (p₂, e₂, r₂) = read_fields-Reads fs r₁ more in
    (
      p₂,
      then_eq _ e₁ (then_eq _ e₂ refl),
      subst (λ t. Reads p₂ buf o t zs) (append_assoc xs (encode f) (encode_all fs)) r₂,
    )

-- Numbers and strings that are written to a new packet, in any order and number, are read back as
-- they were, once the packet is read from its start: also when the packet has grown meanwhile. No
-- step is undefined and nothing is left over. The numbers fit their types, and all the bytes
-- together with the first 4096 fit a `uint32_t`.
pub fields_round_trip :
    (junk : ℕ → ℕ) (address : Option (List ℕ)) (fs : List Field)
    → AllFit fs
    → length (encode_all fs) + 4096 < 2 ^ 32
    → (p : Packet) × (q : Packet) × ((make junk address >>= λ new. write_fields junk new fs)
        ≡ some p)
      × (read_fields (begin_read p) (map kind_of fs) ≡ some (fs, q))
      × (read_bytesleft q ≡ some 0)
fields_round_trip junk address fs fits lim =
    let (new, b, e, r, m) = make-Reads junk address in
    let (p, e', w) =
      write_fields-Packed junk fs (record { buf = b; writes = r.writes; spare = omega arith }) fits
        (omega arith) in
    let r' = begin_read-Reads w.writes in
    let (q, e'', r'') =
      read_fields-Reads fs
        (subst (Reads (begin_read p) w.buf 0 []) (sym (append-nil (encode_all fs))) r') fits in
    (p, q, then_eq _ e e', e'', bytesleft_eq r'')
