-- ===== src/Ota/Return.antt =====
-- `recover_incomplete_apply` of src/ota/agent.py after a cycle, however often the agent is started.
use mathlib.Core.Path.{subst}
use wqm.Prelude.{
  ℕ, ◌≡◌, ◌⊎◌, inl, inr, refl, sym, ap, ◌∙◌, Bool, true, false, Option, none, some, List, [], ◌∷◌,
  String, if◌then◌else◌, Bool-cases, Option-cases,
}
use wqm.Prelude.Texts.{str_eq}
use wqm.Ota.{
  failed, rolled_back, StateFile, Disk, reports, writes, flips, restarts, carry, Answers, Ending,
  going, Run, play_all, begin,
}
use wqm.Ota.Apply.{
  rollback, record_of, is_incomplete, way_back, recovery_to, recovery_of, recover_incomplete_apply,
}
use wqm.Ota.Cycle.{Settings, Surroundings, self_tested, check_and_apply}
use wqm.Ota.Recovery.{home_of, home, or_stay, is_over, play_all-keeps, play_all-first}
use wqm.Ota.Rollback.{Writable}
use wqm.Ota.Safety.{Comes, Offers, offered_version, check_and_apply-Comes}

-- What a recovery does for the unit: it does not change where the unit comes back to, and where it is
-- not stopped the unit is there.
record Recovers (goal : Option String) (r : Run) : Type 0 where
  stays : home r.disk ≡ goal
  arrives : r.ending ≡ going → r.disk.current ≡ goal

stopped-Recovers :
    (goal : Option String) (d : Disk) (n : ℕ) (g : Ending)
    → is_over g ≡ true
    → home d ≡ goal
    → Recovers goal (record { disk = d; count = n; ending = g })
stopped-Recovers goal d n g h stays = record {
  stays = stays;
  arrives = λ e. absurd (let over : false ≡ true = ap is_over (sym e) ∙ h in cc);
}

-- The unit is where it would stay.
Settled : Option String → Disk → Type 0
Settled goal d = (d.current ≡ goal) × (home d ≡ goal)

written-Settled :
    (s : StateFile) (goal : Option String) (d : Disk)
    → is_incomplete s.phase ≡ false
    → Settled goal d
    → Settled goal (carry (writes s) d)
unfolding carry home_of Settled
written-Settled s goal d over at = (at.0, rw over at.0)

rollback-Recovers :
    (answers : Answers) (previous version : String) (r : Run)
    → home r.disk ≡ some previous
    → home_of (some previous) r.disk.state_file ≡ some previous
    → Recovers (some previous) (play_all answers (rollback previous version) r)
unfolding rollback carry is_incomplete record_of Settled
rollback-Recovers answers previous version r stays back =
    play_all-first (Recovers (some previous)) answers (flips previous) _ r (inl refl)
      (λ n g h. stopped-Recovers (some previous) r.disk n g h stays)
      λ n.
        let at =
          play_all-keeps (Settled (some previous)) answers
            (restarts
              ∷ writes (record_of rolled_back version (some previous))
              ∷ reports rolled_back version
              ∷ [])
            (record { disk = record r.disk { current = some previous }; count = n; ending = going })
            (
              (λ d a. a),
              (
                (λ d a.
                    written-Settled (record_of rolled_back version (some previous)) (some previous)
                      d refl a),
                ((λ d a. a), tt),
              ),
            )
            (refl, back) in
        record { stays = at.1; arrives = λ e. at.0 }

failed-Recovers :
    (answers : Answers) (version : String) (goal : Option String) (r : Run)
    → Settled goal r.disk
    → Recovers goal
        (play_all answers (writes (record_of failed version none) ∷ reports failed version ∷ []) r)
unfolding Settled carry record_of is_incomplete
failed-Recovers answers version goal r settled =
    let at =
      play_all-keeps (Settled goal) answers
        (writes (record_of failed version none) ∷ reports failed version ∷ []) r
        ((λ d a. written-Settled (record_of failed version none) goal d refl a), ((λ d a. a), tt))
        settled in
    record { stays = at.1; arrives = λ e. at.0 }

previous_of :
    (b : Bool) (o : Option String) (previous : String)
    → (if b then o else none) ≡ some previous
    → o ≡ some previous
previous_of true o previous h = h
previous_of false o previous h = absurd cc

noted_previous :
    (current : Option String) (s : StateFile) (previous : String)
    → way_back current s ≡ some previous
    → s.previous ≡ some previous
unfolding way_back
noted_previous none s previous h = absurd cc
noted_previous (some current) s previous h =
    previous_of (str_eq current s.version) s.previous previous h

-- Once the link is at the release that was noted, the unit would stay there.
home-flipped :
    (s : StateFile) (previous : String)
    → s.previous ≡ some previous
    → home_of (some previous) (some s) ≡ some previous
unfolding home_of way_back
home-flipped s previous e = elim (Bool-cases (is_incomplete s.phase)) [
  | inr over ↦ rw over refl
  | inl under_way ↦ elim (Bool-cases (str_eq previous s.version)) [
    | inl same ↦ rw (under_way, same, e) refl
    | inr other ↦ rw (under_way, other) refl
  ]
]

home-incomplete :
    (current : Option String) (s : StateFile)
    → is_incomplete s.phase ≡ true
    → home_of current (some s) ≡ or_stay (way_back current s) current
unfolding home_of
home-incomplete current s h = rw h refl

recovery_to-Recovers :
    (answers : Answers) (s : StateFile) (d : Disk)
    → d.state_file ≡ some s
    → is_incomplete s.phase ≡ true
    → Recovers (home d) (play_all answers (recovery_to s.version (way_back d.current s)) (begin d))
unfolding recovery_to Settled
recovery_to-Recovers answers s d noted under_way =
    let home-s : home d ≡ or_stay (way_back d.current s) d.current =
      ap (home_of d.current) noted ∙ home-incomplete d.current s under_way in
    elim (Option-cases (way_back d.current s)) [
      | inl e ↦
          let same : home d ≡ d.current = home-s ∙ ap (λ o. or_stay o d.current) e in
          rw e (failed-Recovers answers s.version (home d) (begin d) (sym same, refl))
      | inr (previous, e) ↦
          let same : home d ≡ some previous = home-s ∙ ap (λ o. or_stay o d.current) e in
          subst (λ o. Recovers (home d) (play_all answers (recovery_to s.version o) (begin d)))
            (sym e)
            (subst (λ g. Recovers g (play_all answers (rollback previous s.version) (begin d)))
              (sym same)
              (rollback-Recovers answers previous s.version (begin d) same (
                ap (home_of (some previous)) noted
                ∙ home-flipped s previous (noted_previous d.current s previous e))))
    ]

recovery_of-Recovers :
    (answers : Answers) (o : Option StateFile) (d : Disk)
    → d.state_file ≡ o
    → Recovers (home d) (play_all answers (recovery_of d.current o) (begin d))
unfolding recovery_of play_all home_of
recovery_of-Recovers answers none d noted = record {
  stays = refl;
  arrives = λ e. sym (ap (home_of d.current) noted);
}
recovery_of-Recovers answers (some s) d noted = elim (Bool-cases (is_incomplete s.phase)) [
  | inl e ↦ rw e (recovery_to-Recovers answers s d noted e)
  | inr e ↦
      let same : home_of d.current (some s) ≡ d.current = rw e refl in
      rw e (record { stays = refl; arrives = λ g. sym (ap (home_of d.current) noted ∙ same) })
]

recovers : (answers : Answers) (d : Disk) → Recovers (home d) (recover_incomplete_apply answers d)
unfolding recover_incomplete_apply
recovers answers d = recovery_of-Recovers answers d.state_file d refl

-- The disk after the agent has been started again and again.
unfoldable pub restarted : List Answers → Disk → Disk
restarted [] d = d
restarted (answers ∷ starts) d = restarted starts (recover_incomplete_apply answers d).disk

home-restarted : (starts : List Answers) (d : Disk) → home (restarted starts d) ≡ home d
unfolding restarted
home-restarted [] d = refl
home-restarted (answers ∷ starts) d =
    home-restarted starts (recover_incomplete_apply answers d).disk ∙ (recovers answers d).stays

-- Whatever fails in a cycle and wherever the agent dies in it, except that a state file which is
-- written is there: if it has been restarted any number of times, dying again or not, then the first
-- recovery that is not stopped leaves the unit at the release that it had before the cycle, or at the
-- one offered after that has passed its self-test. Before the cycle no update was under way, and the
-- version offered is not the name of the release that ran.
pub unit_comes_back :
    (cfg : Settings) (env : Surroundings) (cycle : Answers) (previous : String) (d : Disk)
    → (starts : List Answers) (last : Answers) → Offers env.poll previous
    → Writable cycle
    → d.current ≡ some previous
    → home d ≡ some previous
    → (recover_incomplete_apply last
        (restarted starts (check_and_apply cfg env cycle d).1.disk)).ending
      ≡ going
    → let r =
        recover_incomplete_apply last (restarted starts (check_and_apply cfg env cycle d).1.disk) in
      (r.disk.current ≡ some previous)
      ⊎ ((self_tested cfg env ≡ some true) × (r.disk.current ≡ some (offered_version env.poll)))
unfolding Comes
unit_comes_back cfg env cycle previous d starts last apart writable here stays recovered =
    let left = (check_and_apply cfg env cycle d).1.disk in
    let there =
      (recovers last (restarted starts left)).arrives recovered ∙ home-restarted starts left in
    elim (check_and_apply-Comes cfg env cycle previous d apart writable here stays) [
      | inl e ↦ inl (there ∙ e)
      | inr (passed, e) ↦ inr (passed, there ∙ e)
    ]
