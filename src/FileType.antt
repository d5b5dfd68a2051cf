-- ===== src/FileType.antt =====
-- `guess_file_type` of `src/abg-tools-utils.cc`, on the bytes that stand at the stream's position.
use cyglibabigail.Base.{
  ℕ, zero, suc, ◌≤◌, Bool, true, false, not, ◌&&◌, ◌||◌, List, [], ◌∷◌, if◌then◌else◌, ◌==◌, ltb,
  ◌≡◌, refl, sym, ap, ◌∙◌, ◌⊎◌, ◌↔◌, inl, inr, arith, Bool-cases, codes, length, take,
}

-- `file_type` of `include/abg-tools-utils.h`
pub data FileType : Type 0 where
  unknown native_bi elf ar xml_corpus zip_corpus : FileType

-- Whether the buffer starts with the bytes. Behind what was read it holds zeros, and no byte that
-- is asked for is zero.
unfoldable pub starts_with : List ℕ → List ℕ → Bool
starts_with [] buf = true
starts_with (b ∷ bs) [] = false
starts_with (b ∷ bs) (c ∷ cs) = c == b && starts_with bs cs

abbrev pub elf_magic : List ℕ
elf_magic = 127 ∷ codes "ELF"

abbrev pub zip_magic : List ℕ
zip_magic = b'P' ∷ b'K' ∷ 3 ∷ 4 ∷ []

-- The tests on the buffer, in their order.
unfoldable pub type_of_bytes : List ℕ → FileType
type_of_bytes buf =
    if starts_with elf_magic buf
    then elf
    else if starts_with (codes "!<arch>") buf
    then ar
    else if starts_with (codes "<abi-instr ") buf
    then native_bi
    else if starts_with (codes "<abi-corpus ") buf
    then xml_corpus
    else if starts_with zip_magic buf
    then zip_corpus
    else unknown

-- `is_bad` is `in.bad()`; at most 12 bytes are read.
unfoldable pub guess_file_type : Bool → List ℕ → FileType
guess_file_type is_bad bytes =
    let buf = take 12 bytes in if ltb (length buf) 4 || is_bad then unknown else type_of_bytes buf

-- The bytes of a type.
abbrev pub magic : FileType → List ℕ
magic elf = elf_magic
magic ar = codes "!<arch>"
magic native_bi = codes "<abi-instr "
magic xml_corpus = codes "<abi-corpus "
magic zip_corpus = zip_magic
magic unknown = []

abbrev pub is_known : FileType → Bool
is_known unknown = false
is_known _ = true

starts_with-take :
    (n : ℕ) (w bytes : List ℕ) → length w ≤ n → starts_with w (take n bytes) ≡ starts_with w bytes
unfolding starts_with
starts_with-take n [] bytes h = refl
starts_with-take zero (b ∷ bs) bytes h = absurd (omega arith)
starts_with-take (suc n) (b ∷ bs) [] h = refl
starts_with-take (suc n) (b ∷ bs) (c ∷ cs) h =
    ap (λ x. c == b && x) (starts_with-take n bs cs (omega arith))

starts_with-length : (w buf : List ℕ) → starts_with w buf ≡ true → length w ≤ length buf
unfolding starts_with
starts_with-length [] buf h = omega arith
starts_with-length (b ∷ bs) [] h = cc h
starts_with-length (b ∷ bs) (c ∷ cs) h =
    let tail : starts_with bs cs ≡ true = ground (arith, h) in
    omega (arith, starts_with-length bs cs tail)

-- Two words with different bytes in one place.
abbrev clash : List ℕ → List ℕ → Bool
clash [] ys = false
clash (x ∷ xs) [] = false
clash (x ∷ xs) (y ∷ ys) = not (x == y) || clash xs ys

clash-starts_with :
    (w v buf : List ℕ) → clash w v ≡ true → starts_with w buf ≡ true → starts_with v buf ≡ false
unfolding starts_with
clash-starts_with [] v buf h k = cc h
clash-starts_with (x ∷ xs) [] buf h k = cc h
clash-starts_with (x ∷ xs) (y ∷ ys) [] h k = refl
clash-starts_with (x ∷ xs) (y ∷ ys) (c ∷ cs) h k = ground (arith, clash-starts_with xs ys cs)

magic-type_of_bytes :
    (t : FileType) (buf : List ℕ)
    → is_known t ≡ true
    → starts_with (magic t) buf ≡ true
    → type_of_bytes buf ≡ t
unfolding type_of_bytes
magic-type_of_bytes unknown buf k h = cc k
magic-type_of_bytes elf buf k h = rw h refl
magic-type_of_bytes ar buf k h = rw (clash-starts_with (magic ar) (magic elf) buf refl h, h) refl
magic-type_of_bytes native_bi buf k h =
    rw
      (
        clash-starts_with (magic native_bi) (magic elf) buf refl h,
        clash-starts_with (magic native_bi) (magic ar) buf refl h,
        h,
      )
      refl
magic-type_of_bytes xml_corpus buf k h =
    rw
      (
        clash-starts_with (magic xml_corpus) (magic elf) buf refl h,
        clash-starts_with (magic xml_corpus) (magic ar) buf refl h,
        clash-starts_with (magic xml_corpus) (magic native_bi) buf refl h,
        h,
      )
      refl
magic-type_of_bytes zip_corpus buf k h =
    rw
      (
        clash-starts_with (magic zip_corpus) (magic elf) buf refl h,
        clash-starts_with (magic zip_corpus) (magic ar) buf refl h,
        clash-starts_with (magic zip_corpus) (magic native_bi) buf refl h,
        clash-starts_with (magic zip_corpus) (magic xml_corpus) buf refl h,
        h,
      )
      refl

type_of_bytes-magic : (buf : List ℕ) → starts_with (magic (type_of_bytes buf)) buf ≡ true
unfolding type_of_bytes
type_of_bytes-magic buf =
    passes (starts_with elf_magic buf) elf _ (λ h. h)
      λ _.
        passes (starts_with (codes "!<arch>") buf) ar _ (λ h. h)
          λ _.
            passes (starts_with (codes "<abi-instr ") buf) native_bi _ (λ h. h)
              λ _.
                passes (starts_with (codes "<abi-corpus ") buf) xml_corpus _ (λ h. h)
                  λ _.
                    passes (starts_with zip_magic buf) zip_corpus unknown (λ h. h)
                      λ _. unfold starts_with in refl
  where
    passes :
        (b : Bool) (t u : FileType)
        → (b ≡ true → starts_with (magic t) buf ≡ true)
        → (b ≡ false → starts_with (magic u) buf ≡ true)
        → starts_with (magic (if b then t else u)) buf ≡ true
    passes true t u p q = p refl
    passes false t u p q = q refl

magic-bounds : (t : FileType) → is_known t ≡ true → (4 ≤ length (magic t)) × (length (magic t) ≤ 12)
magic-bounds unknown k = cc k
magic-bounds elf k = (omega arith, omega arith)
magic-bounds ar k = (omega arith, omega arith)
magic-bounds native_bi k = (omega arith, omega arith)
magic-bounds xml_corpus k = (omega arith, omega arith)
magic-bounds zip_corpus k = (omega arith, omega arith)

-- On a stream that is not bad, a file is guessed to be of a known type just where its bytes start
-- with those of that type.
pub guess_file_type_lem :
    (t : FileType) (bytes : List ℕ)
    → is_known t ≡ true
    → (guess_file_type false bytes ≡ t ↔ starts_with (magic t) bytes ≡ true)
unfolding guess_file_type
guess_file_type_lem t bytes k = (to (Bool-cases (ltb (length buf) 4)), from)
  where
    buf : List ℕ
    buf = take 12 bytes

    to :
        (ltb (length buf) 4 ≡ true) ⊎ (ltb (length buf) 4 ≡ false)
        → guess_file_type false bytes ≡ t
        → starts_with (magic t) bytes ≡ true
    to (inl short) h =
        let none_known : is_known unknown ≡ is_known t =
          ap is_known
            (sym (ap (λ b. if b || false then unknown else type_of_bytes buf) short) ∙ h) in
        cc (k, none_known)
    to (inr long) h =
        let same : type_of_bytes buf ≡ t =
          sym (ap (λ b. if b || false then unknown else type_of_bytes buf) long) ∙ h in
        sym (starts_with-take 12 (magic t) bytes (magic-bounds t k).1)
        ∙ ap (λ u. starts_with (magic u) buf) (sym same)
        ∙ type_of_bytes-magic buf

    from : starts_with (magic t) bytes ≡ true → guess_file_type false bytes ≡ t
    from h =
        let there : starts_with (magic t) buf ≡ true =
          starts_with-take 12 (magic t) bytes (magic-bounds t k).1 ∙ h in
        let long : ltb (length buf) 4 ≡ false =
          ground (arith, starts_with-length (magic t) buf there, (magic-bounds t k).0) in
        ap (λ b. if b || false then unknown else type_of_bytes buf) long
        ∙ magic-type_of_bytes t buf k there
