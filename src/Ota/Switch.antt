-- ===== src/Ota/Switch.antt =====
-- `_apply` of src/ota/agent.py, cut short anywhere.
use mathlib.Core.Path.{subst}
use wqm.Prelude.{ℕ, ◌≡◌, inl, inr, refl, sym, ap, ◌∙◌, true, false, some, [], ◌∷◌, ◌++◌, String}
use wqm.Prelude.Texts.{str_eq}
use wqm.Ota.{
  applying, self_test, Disk, writes, flips, restarts, carry, Answers, Ending, going, Run, play_all,
}
use wqm.Ota.Apply.{unpack, switch_to, apply, record_of, is_incomplete}
use wqm.Ota.Recovery.{
  home, Same, Same-refl, home-Same, is_over, play_all-Same, play_all-first, play_all-append, Midway,
  home-Midway, Midway-Same, carry-Same,
}
use wqm.Ota.Rollback.{Writable, unpack-Harmless}

-- The update is noted, and the link is at the new version.
pub record Switched (previous version : String) (d : Disk) : Type 0 where
  pub midway : Midway previous version d
  pub linked : d.current ≡ some version

pub Switched-Same :
    (previous version : String) (d e : Disk)
    → Same d e
    → Switched previous version d
    → Switched previous version e
Switched-Same previous version d e s w = record {
  midway = Midway-Same previous version d e s w.midway;
  linked = s.current ∙ w.linked;
}

-- A run in which the unit comes back to the release before, and has the new one where it goes on.
pub record Applied (previous version : String) (r : Run) : Type 0 where
  pub stays : home r.disk ≡ some previous
  pub switched : r.ending ≡ going → Switched previous version r.disk

module _ (answers : Answers) (previous version : String)
    (apart : str_eq previous version ≡ false) where
  Midway-Applied :
      (d : Disk) (n : ℕ) (g : Ending)
      → is_over g ≡ true
      → home d ≡ some previous
      → Applied previous version (record { disk = d; count = n; ending = g })
  Midway-Applied d n g h stays = record {
    stays = stays;
    switched = λ e. absurd (let over : false ≡ true = ap is_over (sym e) ∙ h in cc);
  }

  noted-Midway :
      (d : Disk)
      → d.current ≡ some previous
      → Midway previous version (carry (writes (record_of applying version (some previous))) d)
  unfolding carry is_incomplete
  noted-Midway d here = record {
    phase = applying;
    incomplete = refl;
    noted = refl;
    linked = inl here;
  }

  flipped-Switched :
      (d : Disk) → Midway previous version d → Switched previous version (carry (flips version) d)
  unfolding carry
  flipped-Switched d m = record {
    midway = record {
      phase = m.phase;
      incomplete = m.incomplete;
      noted = m.noted;
      linked = inr refl;
    };
    linked = refl;
  }

  switch_to-Applied :
      Writable answers
      → (r : Run) → r.disk.current ≡ some previous
      → home r.disk ≡ some previous
      → Applied previous version (play_all answers (switch_to version (some previous)) r)
  unfolding switch_to play_all
  switch_to-Applied writable r here stays =
      let noted = noted-Midway r.disk here in
      let moved =
        flipped-Switched (carry (writes (record_of applying version (some previous))) r.disk)
          noted in
      play_all-first (Applied previous version) answers
        (writes (record_of applying version (some previous))) (flips version ∷ restarts ∷ []) r
        (inr (writable r.count (record_of applying version (some previous))))
        (λ n g h. Midway-Applied r.disk n g h stays)
        λ n.
          play_all-first (Applied previous version) answers (flips version) (restarts ∷ []) _
            (inl refl)
            (λ m g h. Midway-Applied _ m g h (home-Midway previous version _ apart noted))
            λ m.
              play_all-first (Applied previous version) answers restarts [] _ (inl refl)
                (λ k g h.
                  Midway-Applied _ k g h (home-Midway previous version _ apart moved.midway))
                λ k.
                  let w =
                    Switched-Same previous version _ (carry restarts _)
                      (carry-Same restarts _ _ refl (Same-refl _)) moved in
                  record {
                    stays = home-Midway previous version _ apart w.midway;
                    switched = λ e. w;
                  }

  pub apply-Applied :
      (mtime : ℕ) (r : Run)
      → Writable answers
      → r.disk.current ≡ some previous
      → home r.disk ≡ some previous
      → Applied previous version (apply answers version mtime r)
  unfolding apply
  apply-Applied mtime r writable here stays =
      let unpacked = play_all answers (unpack version mtime r.disk) r in
      let same =
        play_all-Same answers (unpack version mtime r.disk) r
          (unpack-Harmless version mtime r.disk) in
      subst
        (λ c.
          Applied previous version
            (play_all answers (unpack version mtime r.disk ++ switch_to version c) r))
        (sym here)
        (subst (Applied previous version)
          (sym (
            play_all-append answers (unpack version mtime r.disk)
              (switch_to version (some previous)) r))
          (switch_to-Applied writable unpacked (same.current ∙ here)
            (home-Same r.disk unpacked.disk same ∙ stays)))

  pub tested-Switched :
      (d : Disk)
      → Switched previous version d
      → Switched previous version (carry (writes (record_of self_test version (some previous))) d)
  unfolding carry is_incomplete
  tested-Switched d w = record {
    midway = record {
      phase = self_test;
      incomplete = refl;
      noted = refl;
      linked = w.midway.linked;
    };
    linked = w.linked;
  }
