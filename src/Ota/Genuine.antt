-- ===== src/Ota/Genuine.antt =====
-- What `_verify` and `_download` of src/ota/agent.py let through to an installation.
use wqm.Prelude.{
  ℕ, ◌+◌, ◌*◌, ◌≤◌, ◌≡◌, ◌⊎◌, inl, inr, refl, sym, ap, ◌∙◌, Bool, true, false, not, ◌||◌, Option,
  none, some, List, [], ◌∷◌, String, arith, ltb, max, get_or, if◌then◌else◌, Bool-cases,
}
use wqm.Prelude.Texts.{str_eq, str_eq_iff}
use wqm.Ota.{
  Disk, Effect, reports, downloads, unlinks_bundle, Answers, Run, play_all, begin, downloading,
  verifying, verify_failed, failed,
}
use wqm.Ota.Verify.{
  Manifest, Target, Tools, Verdict, verified, refused, verify, with_signature, with_key,
  with_manifest, load_public_key, from_fault, is_text, IsGenuine,
}
use wqm.Ota.Download.{
  Response, unreachable, response, limit_of, stream, receive, download, free_disk_factor,
}
use wqm.Ota.Cycle.{
  Settings, Surroundings, Poll, unanswered, unassigned, assigned, installed_version, with_verdict,
  with_download, offered, polled, check_and_apply,
}
use wqm.Ota.Recovery.{Same, Same-refl, Same-trans, play_all-Same}
use wqm.Ota.Rollback.{Harmless}
use wqm.Ota.Linked.{Linked, install-Linked}

refuse_if :
    (b : Bool) (v : Verdict) (m : Manifest)
    → (if b then refused else v) ≡ verified m
    → (b ≡ false) × (v ≡ verified m)
refuse_if true v m h = absurd cc
refuse_if false v m h = (refl, h)

refuse_unless :
    (b : Bool) (v : Verdict) (m : Manifest)
    → (if b then v else refused) ≡ verified m
    → (b ≡ true) × (v ≡ verified m)
refuse_unless true v m h = (refl, h)
refuse_unless false v m h = absurd cc

is_text-some : (o : Option String) (s : String) → not (is_text o s) ≡ false → o ≡ some s
is_text-some none s h = absurd cc
is_text-some (some t) s h = ap some ((str_eq_iff t s).0 (ground (arith, h)))

verified-eq : (m n : Manifest) → verified m ≡ verified n → m ≡ n
verified-eq m n h = ap (λ v. elim v [ verified k ↦ k | refused ↦ m ]) h

module _ (tools : Tools) (installed : String) (target : Target) (m : Manifest) where
  with_manifest-IsGenuine :
      (text key : String) (signature : List ℕ)
      → target.manifest ≡ some text
      → target.signature ≡ some signature
      → load_public_key tools.key_files ≡ some key
      → tools.is_signed text signature key ≡ true
      → (o : Option Manifest) → tools.parse text ≡ o
      → with_manifest tools installed target o ≡ verified m
      → IsGenuine tools installed target m
  unfolding with_manifest
  with_manifest-IsGenuine text key signature tm ts tk signed none p h = absurd cc
  with_manifest-IsGenuine text key signature tm ts tk signed (some n) p h =
      let product = refuse_if (not (is_text n.product "wqm1")) _ m h in
      let version = refuse_if (not (is_text n.version target.version)) _ m product.1 in
      let hashed = refuse_if (not (str_eq tools.digest n.sha256)) _ m version.1 in
      let packed = refuse_if tools.tar_error _ m hashed.1 in
      let upgrade = refuse_if (from_fault tools installed n.min_from_version) _ m packed.1 in
      let same = verified-eq n m upgrade.1 in
      record {
        text = text;
        signature = signature;
        key = key;
        of_target = tm;
        of_signature = ts;
        of_unit = tk;
        signed = signed;
        parsed = p ∙ ap some same;
        product =
            ap (λ (k : Manifest). k.product) (sym same) ∙ is_text-some n.product "wqm1" product.0;
        version =
            ap (λ (k : Manifest). k.version) (sym same)
            ∙ is_text-some n.version target.version version.0;
        hashed =
            ap (λ (k : Manifest). k.sha256) (sym same)
            ∙ sym ((str_eq_iff tools.digest n.sha256).0 (ground (arith, hashed.0)));
        packed = packed.0;
        upgrade =
            ap (λ (k : Manifest). from_fault tools installed k.min_from_version) (sym same)
            ∙ upgrade.0;
      }

  with_key-IsGenuine :
      (text : String) (signature : List ℕ)
      → target.manifest ≡ some text
      → target.signature ≡ some signature
      → (o : Option String) → load_public_key tools.key_files ≡ o
      → with_key tools installed target text signature o ≡ verified m
      → IsGenuine tools installed target m
  unfolding with_key
  with_key-IsGenuine text signature tm ts none tk h = absurd cc
  with_key-IsGenuine text signature tm ts (some key) tk h =
      let signed = refuse_unless (tools.is_signed text signature key) _ m h in
      with_manifest-IsGenuine text key signature tm ts tk signed.0 (tools.parse text) refl signed.1

  with_signature-IsGenuine :
      (o : Option String) (p : Option (List ℕ))
      → target.manifest ≡ o
      → target.signature ≡ p
      → with_signature tools installed target o p ≡ verified m
      → IsGenuine tools installed target m
  unfolding with_signature
  with_signature-IsGenuine none p tm ts h = absurd cc
  with_signature-IsGenuine (some text) none tm ts h = absurd cc
  with_signature-IsGenuine (some text) (some signature) tm ts h =
      with_key-IsGenuine text signature tm ts (load_public_key tools.key_files) refl h

  pub verify-IsGenuine :
      verify tools installed target ≡ verified m → IsGenuine tools installed target m
  unfolding verify
  verify-IsGenuine h = with_signature-IsGenuine target.manifest target.signature refl refl h

stream-bound :
    (limit written : ℕ) (chunks : List (Option ℕ)) (size : ℕ)
    → written ≤ limit
    → stream limit written chunks ≡ some size
    → size ≤ limit
unfolding stream
stream-bound limit written [] size fits h =
    let same : written ≡ size = ap (λ o. get_or o 0) h in omega arith
stream-bound limit written (none ∷ chunks) size fits h = absurd cc
stream-bound limit written (some chunk ∷ chunks) size fits h =
    elim (Bool-cases (ltb limit (written + chunk))) [
      | inl over ↦ absurd (let no_size : none ≡ some size = rw over at h in cc)
      | inr within ↦
          stream-bound limit (written + chunk) chunks size (ground (arith, within)) (rw within at h)
    ]

raise_if :
    (b : Bool) (o : Option ℕ) (size : ℕ)
    → (if b then none else o) ≡ some size
    → (b ≡ false) × (o ≡ some size)
raise_if true o size h = absurd cc
raise_if false o size h = (refl, h)

receive-bound :
    (limit hint : ℕ) (answer : Response) (size : ℕ)
    → receive limit hint answer ≡ some size
    → size ≤ limit
unfolding receive
receive-bound limit hint unreachable size h = absurd cc
receive-bound limit hint (response declared free chunks) size h =
    let fits = raise_if (ltb limit declared) _ size h in
    let room = raise_if (ltb free (free_disk_factor * max (max declared hint) 1)) _ size fits.1 in
    stream-bound limit 0 chunks size (omega arith) room.1

limit_of-bound : (max_bundle size : ℕ) → limit_of max_bundle size ≤ max_bundle
unfolding limit_of
limit_of-bound max_bundle size = ground arith

download-bound :
    (max_bundle : ℕ) (target : Target) (answer : Response) (size : ℕ)
    → download max_bundle target answer ≡ some size
    → size ≤ max_bundle
unfolding download
download-bound max_bundle target answer size h =
    let asked = raise_if (not target.has_url) _ size h in
    omega (
      arith,
      receive-bound (limit_of max_bundle target.size_bytes) target.size_bytes answer size asked.1,
      limit_of-bound max_bundle target.size_bytes,
    )

-- What may be installed: a target that was assigned, whose bundle has been downloaded within the limit,
-- is genuine, and needs no other packages. The link is then where it was or at the target's version.
pub record Installs (cfg : Settings) (env : Surroundings) (d x : Disk) : Type 0 where
  pub target : Target
  pub manifest : Manifest
  pub size : ℕ
  pub of_poll : env.poll ≡ assigned target
  pub fetched : download cfg.max_bundle target env.answer ≡ some size
  pub within : size ≤ cfg.max_bundle
  pub genuine : IsGenuine env.tools (installed_version cfg env d.current) target manifest
  pub plain : manifest.requires_deps ≡ false
  pub linked : (x.current ≡ d.current) ⊎ (x.current ≡ some target.version)

module _ (cfg : Settings) (env : Surroundings) (answers : Answers) (d : Disk) where
  Lets : Run → Type 0
  Lets r = Same d r.disk ⊎ Installs cfg env d r.disk

  Same-Lets :
      (es : List Effect) (r : Run) → Harmless es → Same d r.disk → Lets (play_all answers es r)
  unfolding Lets
  Same-Lets es r h s =
      inl (Same-trans d r.disk (play_all answers es r).disk s (play_all-Same answers es r h))

  with_verdict-Lets :
      (target : Target) (v : Verdict) (size : ℕ) (r : Run)
      → env.poll ≡ assigned target
      → size ≤ cfg.max_bundle
      → download cfg.max_bundle target env.answer ≡ some size
      → verify env.tools (installed_version cfg env d.current) target ≡ v
      → Same d r.disk
      → Lets (with_verdict cfg env answers target.version v r).1
  unfolding with_verdict Lets
  with_verdict-Lets target refused size r p w got h s =
      Same-Lets (reports verify_failed target.version ∷ unlinks_bundle ∷ []) r (refl, (refl, tt)) s
  with_verdict-Lets target (verified m) size r p w got h s = elim (Bool-cases m.requires_deps) [
    | inl e ↦
        rw e
          (Same-Lets (reports failed target.version ∷ unlinks_bundle ∷ []) r (refl, (refl, tt)) s)
    | inr e ↦ rw e (
        inr (record {
          target = target;
          manifest = m;
          size = size;
          of_poll = p;
          within = w;
          genuine = verify-IsGenuine env.tools (installed_version cfg env d.current) target m h;
          plain = e;
          fetched = got;
          linked = unfold Linked in install-Linked d target.version answers cfg env r s;
        }))
  ]

  with_download-Lets :
      (target : Target) (o : Option ℕ) (r : Run)
      → env.poll ≡ assigned target
      → download cfg.max_bundle target env.answer ≡ o
      → Same d r.disk
      → Lets (with_download cfg env answers target o r).1
  unfolding with_download
  with_download-Lets target none r p h s =
      Same-Lets (reports failed target.version ∷ []) r (refl, tt) s
  with_download-Lets target (some size) r p h s =
      let fetched = play_all answers (downloads ∷ reports verifying target.version ∷ []) r in
      with_verdict-Lets target (verify env.tools (installed_version cfg env r.disk.current) target)
        size fetched p (download-bound cfg.max_bundle target env.answer size h) h
        (ap (λ c. verify env.tools (installed_version cfg env c) target) (sym s.current))
        (Same-trans d r.disk fetched.disk s (
          play_all-Same answers (downloads ∷ reports verifying target.version ∷ []) r
            (refl, (refl, tt))))

  offered-Lets :
      (target : Target) → env.poll ≡ assigned target → Lets (offered cfg env answers target d).1
  unfolding offered Lets
  offered-Lets target p =
      elim (Bool-cases
        (str_eq target.version "" || str_eq target.version (installed_version cfg env d.current))) [
          | inl e ↦ rw e (inl (Same-refl d))
          | inr e ↦ rw e (
              with_download-Lets target (download cfg.max_bundle target env.answer) _ p refl (
                play_all-Same answers (reports downloading target.version ∷ []) (begin d)
                  (refl, tt)))
        ]

  polled-Lets : (poll : Poll) → env.poll ≡ poll → Lets (polled cfg env answers poll d).1
  unfolding polled Lets
  polled-Lets unanswered p = inl (Same-refl d)
  polled-Lets unassigned p = inl (Same-refl d)
  polled-Lets (assigned target) p = offered-Lets target p

  -- A cycle leaves the link and the state file as they were, or it may install one target, which was
  -- assigned: the bundle that this names has been downloaded, within the limit, its manifest is signed by
  -- the unit's key, names this product, that version and that bundle, allows the release that is
  -- installed, and needs no other packages. The link is then where it was or at that version, whatever
  -- fails or dies in the cycle.
  pub only_genuine_installed :
      Same d (check_and_apply cfg env answers d).1.disk
      ⊎ Installs cfg env d (check_and_apply cfg env answers d).1.disk
  unfolding check_and_apply Lets
  only_genuine_installed = polled-Lets env.poll refl
