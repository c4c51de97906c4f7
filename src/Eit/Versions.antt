-- ===== src/Eit/Versions.antt =====
-- Which of the EITs of a history are printed.
use aribcap_dump.Eit.Emitter.{only_present, only_following, present_following}
use aribcap_dump.Output.{EitSection, present, following}
use aribcap_dump.Output.{EitRecord, eit, OutputRecord}
use aribcap_dump.Eit.{EitEvent, parse_event, parse_events, parse_eit, DeserializedEit}
use aribcap_dump.Eit.Emitter.{
  same_version, emit_selected, selects, handle_eit, EitOutputMode, EitRecordEmitter,
}
use aribcap_dump.Prelude.{
  ap₂, sym, map, ◌==◌, Bool, length, leb, is_empty, ◌||◌, not, none, ◌∙◌, if◌then◌else◌, false,
  Option, inr, inl, append-nil, Bool-cases, ap, true, arith, ◌++◌, [], some, ◌∷◌, ◌≡◌, ◌∷◌, List, ℕ,
  refl,
}

-- The EITs of a history, one after the other, and all that they print.
pub run : EitRecordEmitter → List DeserializedEit → EitRecordEmitter × List OutputRecord
run e [] = (e, [])
run e (d ∷ ds) = let r = handle_eit e d in let q = run r.0 ds in (q.0, r.1 ++ q.1)

abbrev pub AllOfVersion : ℕ → List DeserializedEit → Type 0
AllOfVersion v [] = Unit {0}
AllOfVersion v (d ∷ ds) = (d.version ≡ v) × AllOfVersion v ds

repeats :
    (e : EitRecordEmitter) (v : ℕ) (ds : List DeserializedEit)
    → e.last_emitted_version ≡ some v
    → AllOfVersion v ds
    → run e ds ≡ (e, [])
unfolding run
repeats e v [] l a = refl
repeats e v (d ∷ ds) l a =
    let same : handle_eit e d ≡ (e, []) = unfold handle_eit in ground (arith, l, a.0) in
    rw same (repeats e v ds l a.1)

handle_eit-last_emitted_version :
    (e : EitRecordEmitter) (d : DeserializedEit)
    → (handle_eit e d).0.last_emitted_version ≡ some d.version
unfolding handle_eit
handle_eit-last_emitted_version e d = ground arith

-- An EIT followed by any number of EITs with its version, whatever those hold, prints and leaves behind
-- what it does alone.
run-repeats :
    (e : EitRecordEmitter) (d : DeserializedEit) (ds : List DeserializedEit)
    → AllOfVersion d.version ds
    → run e (d ∷ ds) ≡ handle_eit e d
unfolding run
run-repeats e d ds a =
    rw (repeats (handle_eit e d).0 d.version ds (handle_eit-last_emitted_version e d) a)
      (ap (λ out. ((handle_eit e d).0, out)) (append-nil _))

-- The EITs of a history whose version is not that of the EIT before it. Before the first one comes
-- `before`.
abbrev pub changes : Option ℕ → List DeserializedEit → List DeserializedEit
changes before [] = []
changes none (d ∷ ds) = d ∷ changes (some d.version) ds
changes (some v) (d ∷ ds) =
    let rest = changes (some d.version) ds in if v == d.version then rest else d ∷ rest

abbrev pub is_present : EitSection → Bool
is_present present = true
is_present following = false

abbrev pub is_following : EitSection → Bool
is_following k = not (is_present k)

abbrev pub of_section : (EitSection → Bool) → List EitRecord → List OutputRecord
of_section is_one [] = []
of_section is_one (r ∷ rs) =
    let rest = of_section is_one rs in if is_one r.section then eit r ∷ rest else rest

-- The records of the present event, of the following ones, or of all, in order.
abbrev pub asked : EitOutputMode → List EitRecord → List OutputRecord
asked only_present rs = of_section is_present rs
asked only_following rs = of_section is_following rs
asked present_following rs = map eit rs

abbrev pub print_all : EitOutputMode → List DeserializedEit → List OutputRecord
print_all mode [] = []
print_all mode (d ∷ ds) = asked mode (parse_eit d) ++ print_all mode ds

emit_selected-asked :
    (mode : EitOutputMode) (rs : List EitRecord) → emit_selected mode rs ≡ asked mode rs
unfolding emit_selected selects
emit_selected-asked only_present [] = refl
emit_selected-asked only_following [] = refl
emit_selected-asked present_following [] = refl
emit_selected-asked only_present (r ∷ rs) =
    of_record r.section (emit_selected-asked only_present rs)
  where
    of_record :
        (k : EitSection) {as' bs : List OutputRecord}
        → as' ≡ bs
        → (if selects only_present k then eit r ∷ as' else as')
          ≡ (if is_present k then eit r ∷ bs else bs)
    of_record present e = ap (λ os. eit r ∷ os) e
    of_record following e = e
emit_selected-asked only_following (r ∷ rs) =
    of_record r.section (emit_selected-asked only_following rs)
  where
    of_record :
        (k : EitSection) {as' bs : List OutputRecord}
        → as' ≡ bs
        → (if selects only_following k then eit r ∷ as' else as')
          ≡ (if is_following k then eit r ∷ bs else bs)
    of_record present e = e
    of_record following e = ap (λ os. eit r ∷ os) e
emit_selected-asked present_following (r ∷ rs) =
    ap (λ os. eit r ∷ os) (emit_selected-asked present_following rs)

handle_eit-repeated :
    (e : EitRecordEmitter) (d : DeserializedEit)
    → same_version e.last_emitted_version d.version ≡ true
    → handle_eit e d ≡ (e, [])
unfolding handle_eit
handle_eit-repeated e d h = rw h

handle_eit-changed :
    (e : EitRecordEmitter) (d : DeserializedEit)
    → same_version e.last_emitted_version d.version ≡ false
    → handle_eit e d ≡ (
      record e { last_emitted_version = some d.version },
      emit_selected e.output_mode (parse_eit d),
    )
unfolding handle_eit
handle_eit-changed e d h = rw h

changes-repeated :
    (o : Option ℕ) (d : DeserializedEit) (ds : List DeserializedEit)
    → same_version o d.version ≡ true
    → changes o (d ∷ ds) ≡ changes o ds
changes-repeated none d ds h = cc
changes-repeated (some v) d ds h =
    let e : v ≡ d.version = ground (arith, h) in
    ap (λ b. if b then changes (some d.version) ds else d ∷ changes (some d.version) ds) h
    ∙ ap (λ w. changes (some w) ds) (sym e)

changes-changed :
    (o : Option ℕ) (d : DeserializedEit) (ds : List DeserializedEit)
    → same_version o d.version ≡ false
    → changes o (d ∷ ds) ≡ d ∷ changes (some d.version) ds
changes-changed none d ds h = refl
changes-changed (some v) d ds h =
    ap (λ b. if b then changes (some d.version) ds else d ∷ changes (some d.version) ds) h

-- What any history of EITs prints: for each EIT whose version is not that of the EIT before it, or, for
-- the first one, not the version that the emitter has kept, its records of the present event, of the
-- following ones or of both, as the output mode asks, in order.
pub run-changes :
    (e : EitRecordEmitter) (ds : List DeserializedEit)
    → (run e ds).1 ≡ print_all e.output_mode (changes e.last_emitted_version ds)
unfolding run
run-changes e [] = refl
run-changes e (d ∷ ds) = elim (Bool-cases (same_version e.last_emitted_version d.version)) [
  | inl y ↦ rw (handle_eit-repeated e d y) (
      run-changes e ds
      ∙ ap (print_all e.output_mode) (sym (changes-repeated e.last_emitted_version d ds y)))
  | inr n ↦ rw (handle_eit-changed e d n) (
      ap₂ (λ rs qs. rs ++ qs) (emit_selected-asked e.output_mode (parse_eit d))
        (run-changes (record e { last_emitted_version = some d.version }) ds)
      ∙ ap (print_all e.output_mode) (sym (changes-changed e.last_emitted_version d ds n)))
]

pub handle_eit-output_mode :
    (e : EitRecordEmitter) (d : DeserializedEit) → (handle_eit e d).0.output_mode ≡ e.output_mode
unfolding handle_eit
handle_eit-output_mode e d = ground arith

-- The sections that an output mode asks for.
abbrev pub Asks : EitOutputMode → EitSection → Type 0
Asks only_present section = section ≡ present
Asks only_following section = section ≡ following
Asks present_following section = Unit {0}

selects-Asks : (mode : EitOutputMode) (k : EitSection) → selects mode k ≡ true → Asks mode k
unfolding selects
selects-Asks only_present present h = refl
selects-Asks only_present following h = cc
selects-Asks only_following present h = cc
selects-Asks only_following following h = refl
selects-Asks present_following k h = tt

-- An EIT record of the service, and of a section that the output mode asks for.
abbrev pub IsSelected : EitOutputMode → ℕ → OutputRecord → Type 0
IsSelected mode sid (eit r) = Asks mode r.section × (r.service_id ≡ sid)
IsSelected mode sid _ = ⊥

abbrev pub AllSelected : EitOutputMode → ℕ → List OutputRecord → Type 0
AllSelected mode sid [] = Unit {0}
AllSelected mode sid (r ∷ rs) = IsSelected mode sid r × AllSelected mode sid rs

abbrev AllOfService : ℕ → List EitRecord → Type 0
AllOfService sid [] = Unit {0}
AllOfService sid (r ∷ rs) = (r.service_id ≡ sid) × AllOfService sid rs

snoc-AllOfService :
    (sid : ℕ) (rs : List EitRecord) (r : EitRecord)
    → AllOfService sid rs
    → r.service_id ≡ sid
    → AllOfService sid (rs ++ (r ∷ []))
snoc-AllOfService sid [] r a h = (h, tt)
snoc-AllOfService sid (q ∷ rs) r a h = (a.0, snoc-AllOfService sid rs r a.1 h)

parse_events-AllOfService :
    (d : DeserializedEit) (rs : List EitRecord) (es : List EitEvent)
    → AllOfService d.eit.service_id rs
    → AllOfService d.eit.service_id (parse_events d rs es)
unfolding parse_events parse_event
parse_events-AllOfService d rs [] a = a
parse_events-AllOfService d rs (e ∷ es) a =
    let r = parse_event d (length rs) e in
    of_full (leb 2 (length rs)) (
      parse_events-AllOfService d (rs ++ (r ∷ [])) es
        (snoc-AllOfService d.eit.service_id rs r a refl))
  where
    next : List EitRecord
    next = parse_events d (rs ++ (parse_event d (length rs) e ∷ [])) es

    of_full :
        (b : Bool)
        → AllOfService d.eit.service_id next
        → AllOfService d.eit.service_id (elim b [ true ↦ rs | false ↦ next ])
    of_full true ih = a
    of_full false ih = ih

parse_eit-AllOfService : (d : DeserializedEit) → AllOfService d.eit.service_id (parse_eit d)
unfolding parse_eit
parse_eit-AllOfService d = elim (Bool-cases (not d.eit.is_valid || is_empty d.eit.events)) [
  | inl y ↦ rw y tt
  | inr n ↦ rw n (parse_events-AllOfService d [] d.eit.events tt)
]

emit_selected-AllSelected :
    (mode : EitOutputMode) (sid : ℕ) (rs : List EitRecord)
    → AllOfService sid rs
    → AllSelected mode sid (emit_selected mode rs)
unfolding emit_selected
emit_selected-AllSelected mode sid [] a = tt
emit_selected-AllSelected mode sid (r ∷ rs) a = elim (Bool-cases (selects mode r.section)) [
  | inl y ↦ rw y ((selects-Asks mode r.section y, a.0), emit_selected-AllSelected mode sid rs a.1)
  | inr n ↦ rw n (emit_selected-AllSelected mode sid rs a.1)
]

-- All that an EIT prints are EIT records of its service, and of sections that the output mode asks for.
pub handle_eit-AllSelected :
    (e : EitRecordEmitter) (d : DeserializedEit)
    → AllSelected e.output_mode d.eit.service_id (handle_eit e d).1
unfolding handle_eit
handle_eit-AllSelected e d = elim (Bool-cases (same_version e.last_emitted_version d.version)) [
  | inl y ↦ rw y tt
  | inr n ↦ rw n (
      emit_selected-AllSelected e.output_mode d.eit.service_id (parse_eit d)
        (parse_eit-AllOfService d))
]
