-- ===== src/Ota/Linked.antt =====
-- Where a cycle of src/ota/agent.py can leave the link `current`.
use wqm.Prelude.{
  ℕ, ◌≡◌, ◌⊎◌, inl, inr, refl, sym, ◌∙◌, Bool, true, false, Option, none, some, List, [], ◌∷◌,
  String, All, All-imp, All-append,
}
use wqm.Ota.{
  Disk, StateFile, Effect, reports, writes, flips, restarts, carry, Ending, going, raised, died,
  applying, self_test, rolled_back, success, unlinks_bundle, Answers, Run, play_all, failed,
}
use wqm.Ota.Cycle.{
  Settings, Surroundings, install, after_apply, after_test, self_tested, fail_or_roll_back,
}
use wqm.Ota.Recovery.{
  Same, Same-refl, Same-trans, play_all-Same, play_all-keeps, carry-Same, is_harmless,
}
use wqm.Ota.Rollback.{Harmless, unpack-Harmless, prune_old-Harmless}
use wqm.Ota.Apply.{apply, unpack, switch_to, rollback, prune_releases}

-- The link is where it was, or at the version.
unfoldable pub Linked : Disk → String → Disk → Type 0
Linked d version x = (x.current ≡ d.current) ⊎ (x.current ≡ some version)

-- An effect that moves the link nowhere else.
abbrev KeepsLinked : Disk → String → Effect → Type 0
KeepsLinked d version e = (x : Disk) → Linked d version x → Linked d version (carry e x)

module _ (d : Disk) (version : String) (answers : Answers) where
  harmless-Linked : (e : Effect) → is_harmless e ≡ true → KeepsLinked d version e
  unfolding Linked
  harmless-Linked e h x (inl same) = inl ((carry-Same e x x h (Same-refl x)).current ∙ same)
  harmless-Linked e h x (inr new) = inr ((carry-Same e x x h (Same-refl x)).current ∙ new)

  writes-Linked : (s : StateFile) → KeepsLinked d version (writes s)
  unfolding carry Linked
  writes-Linked s x l = l

  restarts-Linked : KeepsLinked d version restarts
  unfolding carry Linked
  restarts-Linked x l = l

  flips_on-Linked : KeepsLinked d version (flips version)
  unfolding carry Linked
  flips_on-Linked x l = inr refl

  flips_back-Linked :
      (previous : String) → d.current ≡ some previous → KeepsLinked d version (flips previous)
  unfolding carry Linked
  flips_back-Linked previous e x l = inl (sym e)

  Harmless-Linked : (es : List Effect) → Harmless es → All (KeepsLinked d version) es
  Harmless-Linked es h =
      All-imp (λ e. is_harmless e ≡ true) (KeepsLinked d version) es harmless-Linked h

  play-Linked :
      (es : List Effect) (r : Run)
      → All (KeepsLinked d version) es
      → Linked d version r.disk
      → Linked d version (play_all answers es r).disk
  play-Linked es r k l = play_all-keeps (Linked d version) answers es r k l

  apply-Linked :
      (mtime : ℕ) (r : Run)
      → Linked d version r.disk
      → Linked d version (apply answers version mtime r).disk
  unfolding apply switch_to
  apply-Linked mtime r l =
      play-Linked _ r
        (All-append (KeepsLinked d version) (unpack version mtime r.disk) _
          (Harmless-Linked _ (unpack-Harmless version mtime r.disk))
          (writes-Linked _, (flips_on-Linked, (restarts-Linked, tt))))
        l

  fail-Linked :
      (o : Option String) (r : Run)
      → o ≡ d.current
      → Linked d version r.disk
      → Linked d version (fail_or_roll_back answers version o r).1.disk
  unfolding fail_or_roll_back rollback
  fail-Linked none r e l =
      play-Linked _ r (harmless-Linked (reports failed version) refl, (writes-Linked _, tt)) l
  fail-Linked (some previous) r e l =
      play-Linked _ r
        (
          flips_back-Linked previous (sym e),
          (
            restarts-Linked,
            (writes-Linked _, (harmless-Linked (reports rolled_back version) refl, tt)),
          ),
        )
        l

  test-Linked :
      (cfg : Settings) (o : Option String) (tested : Option Bool) (r : Run)
      → o ≡ d.current
      → Linked d version r.disk
      → Linked d version (after_test cfg answers version o tested r).1.disk
  unfolding after_test prune_releases
  test-Linked cfg o none r e l = l
  test-Linked cfg o (some true) r e l =
      play-Linked _ _ (Harmless-Linked _ (prune_old-Harmless _ _ _))
        (play-Linked _ r (harmless-Linked (reports success version) refl, (writes-Linked _, tt)) l)
  test-Linked cfg o (some false) r e l = fail-Linked o r e l

  applied-Linked :
      (g : Ending) (cfg : Settings) (env : Surroundings) (o : Option String) (r : Run)
      → o ≡ d.current
      → Linked d version r.disk
      → Linked d version (after_apply g cfg env answers version o r).1.disk
  unfolding after_apply
  applied-Linked going cfg env o r e l = test-Linked cfg o (self_tested cfg env) _ e (
      play-Linked _ r
        (
          harmless-Linked unlinks_bundle refl,
          (writes-Linked _, (harmless-Linked (reports self_test version) refl, tt)),
        )
        l)
  applied-Linked raised cfg env o r e l =
      play-Linked _ (record r { ending = going })
        (
          harmless-Linked (reports failed version) refl,
          (harmless-Linked unlinks_bundle refl, (harmless-Linked unlinks_bundle refl, tt)),
        )
        l
  applied-Linked died cfg env o r e l = l

  pub install-Linked :
      (cfg : Settings) (env : Surroundings) (r : Run)
      → Same d r.disk
      → Linked d version (install cfg env answers version r).1.disk
  unfolding install Linked
  install-Linked cfg env r s =
      let told = play_all answers (reports applying version ∷ []) r in
      let same =
        Same-trans d r.disk told.disk s
          (play_all-Same answers (reports applying version ∷ []) r (refl, tt)) in
      applied-Linked _ cfg env told.disk.current _ same.current
        (apply-Linked env.mtime told (inl same.current))
