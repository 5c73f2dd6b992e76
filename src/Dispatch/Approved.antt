-- ===== src/Dispatch/Approved.antt =====
-- src/ard_ossie/application/release_dispatch.py: what the approved result says of its release.
use Prim.Native.Char.{code}
use Prim.Native.Nat.{◌-◌}
use Prim.Native.String.{◌++◌}
use ard_ossie_provider.Prelude.{
  ◌≡◌, ◌≤◌, refl, subst, ap, ◌∙◌, ◌+◌, ◌*◌, ℕ, Bool, true, false, not, ◌&&◌, Option, none, some,
  String, if◌then◌else◌, leb, ok, err, raise_if, in_chain, ok_injective, Bool-cases, arith, eq_iff,
  inl, inr,
}
use ard_ossie_provider.Prelude.Text.{str_eq}
use ard_ossie_provider.Prelude.Dict.{Dict}
use ard_ossie_provider.Models.Patterns.{is_id}
use ard_ossie_provider.Json.{Json, text, number, null, boolean, array, object}
use ard_ossie_provider.Workflow.{WorkflowResult, succeeded}
use ard_ossie_provider.Release.{tag, decimal}
use ard_ossie_provider.Shell.{Raised}
use ard_ossie_provider.Shell.GitHub.{lookup}
use ard_ossie_provider.Dispatch.{Request, Ports}
use ard_ossie_provider.Dispatch.Checks.{
  Released, required_string, digits_value, required_version, validated_artifact_hashes, approved,
  is_succeeded, refused, load_release_result, read_released,
}
use ard_ossie_provider.Dispatch.Entries.{AreHashes, validated-AreHashes}

-- decimal digits that continue a number to the value
abbrev pub Reads : ℕ → String → ℕ → Type 0
Reads n String.[] value = n ≡ value
Reads n (String.◌∷◌ c s) value =
    (b'0' ≤ code c) × (code c ≤ b'9') × Reads (10 * n + (code c - b'0')) s value

digits_value-Reads : (n : ℕ) (s : String) (v : ℕ) → digits_value n s ≡ some v → Reads n s v
unfolding digits_value
digits_value-Reads n String.[] v h = cc
digits_value-Reads n (String.◌∷◌ c s) v h =
    elim (Bool-cases (leb b'0' (code c) && leb (code c) b'9')) [
      | inl e ↦ (
        ground (arith, e),
        ground (arith, e),
        digits_value-Reads (10 * n + (code c - b'0')) s v (ground (arith, e, h)),
      )
      | inr e ↦ absurd (ground (arith, e, h))
    ]

-- the result of a publication that succeeded, at the one path that is trusted
pub record IsEnvelope (ports : Ports) (request : Request) (result : WorkflowResult) : Type 0 where
  pub trusted : request.result_path ≡ ports.root ++ "/.ard/run/workflow.release-product-result.json"
  pub stored : ports.read_result request.result_path ≡ ok (some result)
  pub of_publication : result.command ≡ "workflow.release-product"
  pub ended_well : result.status ≡ succeeded

-- the release with its hashes is that of the result at the requested path
pub record IsRelease (ports : Ports) (request : Request) (r : Released) (hashes : Dict String)
    : Type 0 where
  pub result : WorkflowResult
  pub literal : String
  pub envelope : IsEnvelope ports request result
  pub of_product : lookup result.outputs "product_id" ≡ some (text r.product_id)
  pub of_tag : lookup result.outputs "product_tag" ≡ some (text r.tag_name)
  pub of_commit : lookup result.outputs "commit" ≡ some (text r.commit)
  pub of_version : lookup result.outputs "version" ≡ some (number literal)
  pub counted : Reads 0 literal r.version
  pub from_one : 1 ≤ r.version
  pub to_limit : r.version ≤ 999
  pub is_product : is_id "prd_" r.product_id ≡ true
  pub is_tag : r.tag_name ≡ "product" ++ ("/" ++ (r.product_id ++ ("/v" ++ decimal r.version)))
  pub is_hashed : AreHashes (lookup result.outputs "artifact_hashes") hashes

raise_if-passes : (b : Bool) (e : Raised) → raise_if (not b) e ≡ ok tt → b ≡ true
raise_if-passes true e h = refl
raise_if-passes false e h = cc

approved-some :
    (o : Option WorkflowResult) (result : WorkflowResult)
    → approved o ≡ ok result
    → (o ≡ some result)
      × (result.command ≡ "workflow.release-product")
      × (result.status ≡ succeeded)
unfolding approved
approved-some none result h = cc
approved-some (some w) result h =
    elim (Bool-cases (str_eq w.command "workflow.release-product" && is_succeeded w.status)) [
      | inr e ↦ absurd (ground (arith, e, h))
      | inl e ↦
          subst
            (λ (v : WorkflowResult).
              (some w ≡ some v) × (v.command ≡ "workflow.release-product") × (v.status ≡ succeeded))
            (ok_injective {E = Raised} w result (ground (arith, e, h)))
            (
              refl,
              (eq_iff w.command "workflow.release-product").0 (ground (arith, e)),
              ground (arith, e),
            )
    ]

load_release_result-IsEnvelope :
    (ports : Ports) (request : Request) (result : WorkflowResult)
    → load_release_result ports request.result_path ≡ ok result
    → IsEnvelope ports request result
unfolding load_release_result
load_release_result-IsEnvelope ports request result h =
    elim (Bool-cases (
      str_eq request.result_path
        (ports.root ++ "/.ard/run/workflow.release-product-result.json"))) [
          | inr e ↦ absurd (ground (arith, e, h))
          | inl e ↦
              in_chain (ports.read_result request.result_path) approved result
                (ground (arith, e, h))
                λ envelope read k.
                  let found = approved-some envelope result k in
                  record {
                    trusted = (eq_iff request.result_path _).0 e;
                    stored = read ∙ ap ok found.0;
                    of_publication = found.1;
                    ended_well = found.2;
                  }
        ]

required_string-text : (o : Option Json) (s : String) → required_string o ≡ ok s → o ≡ some (text s)
unfolding required_string
required_string-text none s h = cc
required_string-text (some (text t)) s h = elim (Bool-cases (str_eq t "")) [
  | inl e ↦ absurd (ground (arith, e, h))
  | inr e ↦ ap (λ x. some (text x)) (ok_injective {E = Raised} t s (ground (arith, e, h)))
]
required_string-text (some null) s h = cc
required_string-text (some (boolean b)) s h = cc
required_string-text (some (number n)) s h = cc
required_string-text (some (array xs)) s h = cc
required_string-text (some (object fs)) s h = cc

abbrev IsVersion : Option Json → ℕ → Type 0
IsVersion o n =
    (literal : String) × (o ≡ some (number literal)) × Reads 0 literal n × (1 ≤ n) × (n ≤ 999)

required_version-IsVersion : (o : Option Json) (n : ℕ) → required_version o ≡ ok n → IsVersion o n
unfolding required_version
required_version-IsVersion none n h = cc
required_version-IsVersion (some (number s)) n h = split (digits_value 0 s) refl h
  where
    split :
        (d : Option ℕ)
        → digits_value 0 s ≡ d
        → elim d [
          | none ↦ err (refused "RELEASE_VERSION_INVALID")
          | some k ↦ if leb 1 k && leb k 999 then ok k else err (refused "RELEASE_VERSION_INVALID")
        ]
          ≡ ok n
        → IsVersion (some (number s)) n
    split none e k = cc
    split (some v) e k = elim (Bool-cases (leb 1 v && leb v 999)) [
      | inr f ↦ absurd (ground (arith, f, k))
      | inl f ↦
          let same : v ≡ n = ok_injective {E = Raised} v n (ground (arith, f, k)) in
          (
            s,
            refl,
            digits_value-Reads 0 s n (e ∙ ap some same),
            ground (arith, f, same),
            ground (arith, f, same),
          )
    ]
required_version-IsVersion (some null) n h = cc
required_version-IsVersion (some (boolean b)) n h = cc
required_version-IsVersion (some (text t)) n h = cc
required_version-IsVersion (some (array xs)) n h = cc
required_version-IsVersion (some (object fs)) n h = cc

tag-named :
    (id : String) (n : ℕ) → tag "product" id n ≡ "product" ++ ("/" ++ (id ++ ("/v" ++ decimal n)))
unfolding tag
tag-named id n = refl

pub approved-IsRelease :
    (ports : Ports) (request : Request) (result : WorkflowResult) (r : Released)
    (hashes : Dict String)
    → load_release_result ports request.result_path ≡ ok result
    → read_released result ≡ ok r
    → validated_artifact_hashes (lookup result.outputs "artifact_hashes") ≡ ok hashes
    → IsRelease ports request r hashes
unfolding read_released
approved-IsRelease ports request result r hashes loaded read hashed =
    in_chain (required_string (lookup result.outputs "product_id")) _ r read λ id a h.
      in_chain (required_string (lookup result.outputs "product_tag")) _ r h λ name b h.
        in_chain (required_string (lookup result.outputs "commit")) _ r h λ commit c h.
          in_chain (raise_if (not (is_id "prd_" id)) (refused "RELEASE_PRODUCT_ID_INVALID")) _ r h
            λ _ valid h.
              in_chain (required_version (lookup result.outputs "version")) _ r h λ version d h.
                in_chain
                  (raise_if (not (str_eq name (tag "product" id version)))
                    (refused "RELEASE_TAG_MISMATCH"))
                  _ r h
                  λ _ tagged h.
                    let v =
                      required_version-IsVersion (lookup result.outputs "version") version d in
                    subst (λ (x : Released). IsRelease ports request x hashes)
                      (ok_injective {E = Raised} _ r h)
                      (record {
                        result = result;
                        literal = v.0;
                        envelope = load_release_result-IsEnvelope ports request result loaded;
                        of_product = required_string-text (lookup result.outputs "product_id") id a;
                        of_tag = required_string-text (lookup result.outputs "product_tag") name b;
                        of_commit = required_string-text (lookup result.outputs "commit") commit c;
                        of_version = v.1;
                        counted = v.2;
                        from_one = v.3;
                        to_limit = v.4;
                        is_product =
                            raise_if-passes (is_id "prd_" id) (refused "RELEASE_PRODUCT_ID_INVALID")
                              valid;
                        is_tag =
                            (eq_iff name (tag "product" id version)).0 (
                              raise_if-passes (str_eq name (tag "product" id version))
                                (refused "RELEASE_TAG_MISMATCH") tagged)
                            ∙ tag-named id version;
                        is_hashed =
                            validated-AreHashes (lookup result.outputs "artifact_hashes") hashes
                              hashed;
                      })
