-- ===== src/Decisions/Challenge/Codec.antt =====
-- A codec for the tests of backend/app/decisions/challenge.py: numbers in unary, and each character
-- of a text behind a mark.
use continuous_auth.Common.{
  ℕ, zero, suc, ◌+◌, ◌≡◌, refl, ap, ◌∙◌, Option, none, some, List, [], ◌∷◌, ◌++◌, String, ◌==◌,
  arith, if◌then◌else◌,
}
use Prim.Native.Char.{code}
use continuous_auth.Decisions.Challenge.Credential.{StoredDocument, Crypto}

abbrev write_number : ℕ → String → String
write_number zero s = String.◌∷◌ "." s
write_number (suc n) s = String.◌∷◌ "1" (write_number n s)

abbrev read_number : ℕ → String → Option (ℕ × String)
read_number n String.[] = none
read_number n (String.◌∷◌ c s) =
    let rest = read_number (n + 1) s in if code c == 46 then some (n, s) else rest

read_number-write_number :
    (k n : ℕ) (s : String) → read_number k (write_number n s) ≡ some (k + n, s)
read_number-write_number k zero s = ground arith
read_number-write_number k (suc n) s = ground (arith, read_number-write_number (k + 1) n s)

abbrev write_text : String → String → String
write_text String.[] s = String.◌∷◌ "." s
write_text (String.◌∷◌ c t) s = String.◌∷◌ "1" (String.◌∷◌ c (write_text t s))

abbrev read_text : String → Option (String × String)
read_text String.[] = none
read_text (String.◌∷◌ m String.[]) = if code m == 46 then some (String.[], String.[]) else none
read_text (String.◌∷◌ m (String.◌∷◌ c s)) =
    let rest = read_text s in
    if code m == 46
    then some (String.[], String.◌∷◌ c s)
    else elim rest [ none ↦ none | some (t, u) ↦ some (String.◌∷◌ c t, u) ]

read_text-write_text : (t s : String) → read_text (write_text t s) ≡ some (t, s)
read_text-write_text String.[] String.[] = refl
read_text-write_text String.[] (String.◌∷◌ c s) = refl
read_text-write_text (String.◌∷◌ c t) s = rw (read_text-write_text t s) refl

-- `x ← o; f x`
abbrev bind : {A B : Type 0} → Option A → (A → Option B) → Option B
bind none f = none
bind (some a) f = f a

abbrev write_bytes : List ℕ → String
write_bytes [] = String.[]
write_bytes (n ∷ ns) = write_number n (write_bytes ns)

abbrev read_bytes : ℕ → String → Option (List ℕ)
read_bytes n String.[] = some []
read_bytes n (String.◌∷◌ c s) =
    let more = read_bytes (n + 1) s in
    let next = read_bytes 0 s in if code c == 46 then bind next (λ ns. some (n ∷ ns)) else more

read_bytes-write_number :
    (k n : ℕ) (s : String)
    → read_bytes k (write_number n s) ≡ bind (read_bytes 0 s) (λ ns. some ((k + n) ∷ ns))
read_bytes-write_number k zero s = ground arith
read_bytes-write_number k (suc n) s =
    read_bytes-write_number (k + 1) n s
    ∙ ap (λ m. bind (read_bytes 0 s) (λ ns. some (m ∷ ns))) (omega arith)

read_bytes-write_bytes : (ns : List ℕ) → read_bytes 0 (write_bytes ns) ≡ some ns
read_bytes-write_bytes [] = refl
read_bytes-write_bytes (n ∷ ns) =
    read_bytes-write_number 0 n (write_bytes ns)
    ∙ ap (λ o. bind o (λ ms. some ((0 + n) ∷ ms))) (read_bytes-write_bytes ns)
    ∙ ap (λ m. some (m ∷ ns)) (omega arith)

abbrev write_document : StoredDocument → String
write_document d = write_number d.version (
    write_number d.iterations
      (write_text d.question (write_text d.salt (write_text d.digest String.[]))))

abbrev read_document : String → Option StoredDocument
read_document s = bind (read_number 0 s) (λ v. bind (read_number 0 v.1) (λ i.
    bind (read_text i.1) (λ q. bind (read_text q.1) (λ a. bind (read_text a.1) (λ g.
      some
        (record { version = v.0; question = q.0; salt = a.0; digest = g.0; iterations = i.0 }))))))

read_document-write_document : (d : StoredDocument) → read_document (write_document d) ≡ some d
read_document-write_document d =
    let digest = write_text d.digest String.[] in
    let salt = write_text d.salt digest in
    let question = write_text d.question salt in
    let iterations = write_number d.iterations question in
    rw (read_number-write_number 0 d.version iterations) (
      rw (read_number-write_number 0 d.iterations question) (
        rw (read_text-write_text d.question salt) (
          rw (read_text-write_text d.salt digest)
            (rw (read_text-write_text d.digest String.[]) (ground arith)))))

-- The answer's codes after the salt stand for its digest.
abbrev codes : String → List ℕ
codes String.[] = []
codes (String.◌∷◌ c s) = code c ∷ codes s

abbrev pub plain : Crypto
plain = record {
  derive = λ answer salt iterations. some (salt ++ codes answer);
  to_hex = write_bytes;
  from_hex = read_bytes 0;
  dumps = write_document;
  loads = read_document;
}

pub plain_unhexed : (bytes : List ℕ) → plain.from_hex (plain.to_hex bytes) ≡ some bytes
plain_unhexed bytes = read_bytes-write_bytes bytes

pub plain_decoded : (d : StoredDocument) → plain.loads (plain.dumps d) ≡ some d
plain_decoded d = read_document-write_document d
