-- ===== src/Tls.antt =====
-- pkg/tls/tls.go: the TLS settings of the command line. The cipher suites that the standard library
-- knows, secure ones and insecure ones, are arguments: their names and numbers.
use kubemacpool.Prelude.{
  lookup-insert, split_on, ℕ, ◌≡◌, refl, ap, ◌∙◌, Option, none, some, List, [], ◌∷◌, Text, codes,
  text_eq, GoMap, lookup, insert, arith, if◌then◌else◌, Result, ok, err, Error, ◌>>=◌,
}

pub record Config : Type 0 where
  pub min_tls_version : ℕ
  pub cipher_suites : List ℕ
  pub group_preferences : List ℕ

abbrev pub versions : GoMap ℕ
versions =
    (codes "VersionTLS10", 769)
    ∷ (codes "VersionTLS11", 770)
    ∷ (codes "VersionTLS12", 771)
    ∷ (codes "VersionTLS13", 772)
    ∷ []

unfoldable pub version_by_name : Text → Result ℕ
version_by_name name = elim (lookup name versions) [
  | some v ↦ ok v
  | none ↦ err Error.invalid_tls_version
]

-- A later suite of one name replaces an earlier one.
unfoldable pub insert_suites : List (Text × ℕ) → GoMap ℕ → GoMap ℕ
insert_suites [] ids = ids
insert_suites ((name, id) ∷ suites) ids = insert_suites suites (insert name id ids)

-- The numbers of the names that are known.
unfoldable pub known_ids : GoMap ℕ → List Text → List ℕ
known_ids ids [] = []
known_ids ids (name ∷ names) =
    let rest = known_ids ids names in elim (lookup name ids) [ none ↦ rest | some id ↦ id ∷ rest ]

unfoldable pub tls_cipher_suites : List (Text × ℕ) → List (Text × ℕ) → List Text → List ℕ
tls_cipher_suites secure insecure names =
    known_ids (insert_suites insecure (insert_suites secure [])) names

abbrev pub groups : GoMap ℕ
groups =
    (codes "CurveP256", 23)
    ∷ (codes "CurveP384", 24)
    ∷ (codes "CurveP521", 25)
    ∷ (codes "X25519", 29)
    ∷ (codes "X25519MLKEM768", 4588)
    ∷ (codes "SecP256r1MLKEM768", 4587)
    ∷ (codes "SecP384r1MLKEM1024", 4589)
    ∷ []

unfoldable pub tls_groups : List Text → List ℕ
tls_groups names = known_ids groups names

unfoldable pub new_config : List (Text × ℕ) → List (Text × ℕ) → Text → Text → Text → Result Config
new_config secure insecure min_tls_version cipher_suites group_names =
    version_by_name min_tls_version >>= λ version. ok (record {
      min_tls_version = version;
      cipher_suites = tls_cipher_suites secure insecure (split_on b',' [] cipher_suites);
      group_preferences = tls_groups (split_on b',' [] group_names);
    })

-- The last suite of a name.
abbrev pub last_id : Text → List (Text × ℕ) → Option ℕ
last_id name [] = none
last_id name ((n, id) ∷ suites) = elim (last_id name suites) [
  | some later ↦ some later
  | none ↦ if text_eq n name then some id else none
]

abbrev pub or_else : Option ℕ → Option ℕ → Option ℕ
or_else (some a) b = some a
or_else none b = b

lookup-insert_suites :
    (name : Text) (suites : List (Text × ℕ)) (ids : GoMap ℕ)
    → lookup name (insert_suites suites ids) ≡ or_else (last_id name suites) (lookup name ids)
unfolding insert_suites
lookup-insert_suites name [] ids = refl
lookup-insert_suites name ((n, id) ∷ suites) ids =
    ground (arith, lookup-insert_suites name suites (insert n id ids), lookup-insert n name id ids)

-- The numbers that a function finds, in the order of the names.
abbrev pub found_ids : (Text → Option ℕ) → List Text → List ℕ
found_ids find [] = []
found_ids find (name ∷ names) = elim (find name) [
  | none ↦ found_ids find names
  | some id ↦ id ∷ found_ids find names
]

known_ids_lem :
    (ids : GoMap ℕ) (find : Text → Option ℕ)
    → ((name : Text) → lookup name ids ≡ find name)
    → (names : List Text) → known_ids ids names ≡ found_ids find names
unfolding known_ids
known_ids_lem ids find same [] = refl
known_ids_lem ids find same (name ∷ names) =
    ap (pick (known_ids ids names)) (same name)
    ∙ ap (λ rest. pick rest (find name)) (known_ids_lem ids find same names)
  where
    pick : List ℕ → Option ℕ → List ℕ
    pick rest o = elim o [ none ↦ rest | some id ↦ id ∷ rest ]

or_else-none : (o : Option ℕ) → or_else o none ≡ o
or_else-none none = refl
or_else-none (some id) = refl

-- tlsCipherSuites returns, in the order of the names, the number of each name that is known, by the
-- last insecure suite of that name, or else the last secure one, and passes unknown names over.
pub tls_cipher_suites_lem :
    (secure insecure : List (Text × ℕ)) (names : List Text)
    → tls_cipher_suites secure insecure names
      ≡ found_ids (λ name. or_else (last_id name insecure) (last_id name secure)) names
unfolding tls_cipher_suites lookup
tls_cipher_suites_lem secure insecure names =
    known_ids_lem (insert_suites insecure (insert_suites secure [])) _
      (λ name.
        lookup-insert_suites name insecure (insert_suites secure [])
        ∙ ap (or_else (last_id name insecure))
            (lookup-insert_suites name secure [] ∙ or_else-none (last_id name secure)))
      names
