-- ===== src/Server/Scrub/Redacted.antt =====
-- What is left in a scrubbed event of server/src/scrub.rs.
use little_love.Prelude.{
  ◌≡◌, ◌⊎◌, refl, inl, inr, String, true, Option, none, some, List, [], ◌∷◌, map, All, Bool-cases,
}
use little_love.Server.Scrub.{
  Value, null, bool, number, text, array, object, Elements, stop, element, Entries, done, entry,
  is_sensitive_key, LogEntry, Breadcrumb, Event, passes, redact_by, redact, scrub_value,
  scrub_elements, scrub_entries,
}

module _ (replace_all : String → String → String → String) where
  -- `out` comes from `s` by the passes, one after another.
  abbrev pub Passed : List (String × String) → String → String → Type 0
  Passed [] s out = out ≡ s
  Passed ((pattern_, replacement) ∷ later) s out =
      (next : String) × (next ≡ replace_all pattern_ replacement s) × Passed later next out

  redact_by-Passed :
      (ps : List (String × String)) (s : String) → Passed ps s (redact_by replace_all ps s)
  unfolding redact_by
  redact_by-Passed [] s = refl
  redact_by-Passed ((pattern_, replacement) ∷ later) s = (
    replace_all pattern_ replacement s,
    refl,
    redact_by-Passed later (replace_all pattern_ replacement s),
  )

  redact-Passed : (s : String) → Passed passes s (redact replace_all s)
  unfolding redact
  redact-Passed s = redact_by-Passed passes s

  -- A text that was dropped, or that went through all passes.
  abbrev pub IsRedacted : String → Type 0
  IsRedacted s = (s ≡ "[redacted]") ⊎ ((t : String) × Passed passes t s)

  abbrev pub IsRedactedOption : Option String → Type 0
  IsRedactedOption none = Unit {0}
  IsRedactedOption (some s) = IsRedacted s

  -- Every text is redacted, at any depth, and nothing but the mark is left under a sensitive key.
  unfoldable mutual
    pub IsClean : Value → Type 0
    IsClean null = Unit {0}
    IsClean (bool b) = Unit {0}
    IsClean (number n) = Unit {0}
    IsClean (text s) = IsRedacted s
    IsClean (array a) = AllClean a
    IsClean (object o) = CleanEntries o

    pub AllClean : Elements → Type 0
    AllClean stop = Unit {0}
    AllClean (element v vs) = IsClean v × AllClean vs

    pub CleanEntries : Entries → Type 0
    CleanEntries done = Unit {0}
    CleanEntries (entry k v rest) =
        (is_sensitive_key k ≡ true → v ≡ text "[redacted]") × IsClean v × CleanEntries rest

  abbrev pub IsCleanTag : String × String → Type 0
  IsCleanTag (k, v) = (is_sensitive_key k ≡ true → v ≡ "[redacted]") × IsRedacted v

  abbrev pub IsCleanBreadcrumb : {B : Type 0} → Breadcrumb B → Type 0
  IsCleanBreadcrumb b = IsRedactedOption b.message × CleanEntries b.entries

  abbrev pub IsCleanLogEntry : {L : Type 0} → Option (LogEntry L) → Type 0
  IsCleanLogEntry none = Unit {0}
  IsCleanLogEntry (some le) = IsRedacted le.message

  -- What stands beside the message of a log entry.
  abbrev pub other_of : {L : Type 0} → Option (LogEntry L) → Option L
  other_of none = none
  other_of (some le) = some le.other

  -- The texts that the code goes through are redacted, and all else is as it was.
  pub record IsCleanEvent {L X B E : Type 0} (before after : Event L X B E) : Type 0 where
    pub message : IsRedactedOption after.message
    pub logentry : IsCleanLogEntry after.logentry
    pub transaction : IsRedactedOption after.transaction
    pub exception : All (λ x. IsRedactedOption x.value) after.exception
    pub breadcrumbs : All IsCleanBreadcrumb after.breadcrumbs
    pub extra : CleanEntries after.extra
    pub tags : All IsCleanTag after.tags
    pub nameless : after.server_name ≡ none
    pub tag_names : map (λ t. t.0) after.tags ≡ map (λ t. t.0) before.tags
    pub beside_logentry : other_of after.logentry ≡ other_of before.logentry
    pub beside_values : map (λ x. x.other) after.exception ≡ map (λ x. x.other) before.exception
    pub beside_breadcrumbs :
        map (λ b. b.other) after.breadcrumbs ≡ map (λ b. b.other) before.breadcrumbs
    pub other : after.other ≡ before.other

  mutual
    unfolding scrub_value IsClean

    scrub_value-IsClean : (v : Value) → IsClean (scrub_value replace_all v)
    scrub_value-IsClean null = tt
    scrub_value-IsClean (bool b) = tt
    scrub_value-IsClean (number n) = tt
    scrub_value-IsClean (text s) = inr (s, redact-Passed s)
    scrub_value-IsClean (array a) = scrub_elements-AllClean a
    scrub_value-IsClean (object o) = scrub_entries-CleanEntries o

    scrub_elements-AllClean : (a : Elements) → AllClean (scrub_elements replace_all a)
    scrub_elements-AllClean stop = tt
    scrub_elements-AllClean (element v vs) = (scrub_value-IsClean v, scrub_elements-AllClean vs)

    scrub_entries-CleanEntries : (o : Entries) → CleanEntries (scrub_entries replace_all o)
    scrub_entries-CleanEntries done = tt
    scrub_entries-CleanEntries (entry k v rest) =
        let later = scrub_entries-CleanEntries rest in
        let inside = scrub_value-IsClean v in
        elim (Bool-cases (is_sensitive_key k)) [
          | inl e ↦ rw e ((λ _. refl), inl refl, later)
          | inr e ↦ rw e ((λ h. absurd (cc h)), inside, later)
        ]
