-- ===== src/Config/Entries.antt =====
-- c_src/exrdkafka_config.cc: `parse_config` against reading the whole list first and then setting
-- the values one after another.
use exrdkafka.Base.{
  ◌≡◌, refl, ◌∙◌, ◌↔◌, List, [], ◌∷◌, true, Option, none, some, arith, inl, inr, Option-cases,
  Bool-cases,
}
use exrdkafka.Erl.{Bytes, Term, ErlNif, cell, ok_term, is_list, get_tuple2}
use exrdkafka.Erl.Utils.{c_str, get_string, make_bad_options, make_error_text}
use exrdkafka.Rd.{Log}
use exrdkafka.Config.{SetValue, parse_entry, parse_entries, parse_config, set_all}

pub set_all-cons :
    (set_value : SetValue) (p : Bytes × Bytes) (es : List (Bytes × Bytes)) (l l' : Log)
    → set_all set_value (p ∷ es) l ≡ (true, l')
    → let r = set_value p.0 p.1 l in (r.0 ≡ none) × (set_all set_value es r.1 ≡ (true, l'))
unfolding set_all
set_all-cons set_value p es l l' h = elim (Option-cases (set_value p.0 p.1 l).0) [
  | inl e ↦ (e, ground arith)
  | inr (errstr, e) ↦ absurd (ground arith)
]

module _ (nif : ErlNif) where
  -- A pair of two texts, each up to its first zero byte.
  unfoldable pub entry_of : Term → Option (Bytes × Bytes)
  entry_of head = elim (get_tuple2 head) [
    | none ↦ none
    | some (k, v) ↦ elim (get_string nif k) [
      | none ↦ none
      | some key ↦ elim (get_string nif v) [
        | none ↦ none
        | some value ↦ some (c_str key, c_str value)
      ]
    ]
  ]

  -- The entries of the cells, if all of them are pairs of texts.
  unfoldable pub entries_of : Term → Option (List (Bytes × Bytes))
  entries_of (cell head list) = elim (entry_of head) [
    | none ↦ none
    | some e ↦ elim (entries_of list) [ none ↦ none | some es ↦ some (e ∷ es) ]
  ]
  entries_of _ = some []

  module _ (set_value : SetValue) where
    -- An entry that is no pair of texts is answered with the entry itself, and nothing is set.
    parse_entry_bad :
        (head : Term) (l : Log)
        → entry_of head ≡ none
        → parse_entry nif set_value head l ≡ (some (make_bad_options head), l)
    unfolding parse_entry entry_of
    parse_entry_bad head l e = ground arith

    parse_entry_good :
        (head : Term) (name value : Bytes) (l : Log)
        → entry_of head ≡ some (name, value)
        → let r = set_value name value l in
          parse_entry nif set_value head l
          ≡ (elim r.0 [ none ↦ none | some errstr ↦ some (make_error_text errstr) ], r.1)
    unfolding parse_entry entry_of
    parse_entry_good head name value l e = ground arith

    parse_entry_accepted :
        (head : Term) (p : Bytes × Bytes) (l : Log)
        → entry_of head ≡ some p
        → (set_value p.0 p.1 l).0 ≡ none
        → parse_entry nif set_value head l ≡ (none, (set_value p.0 p.1 l).1)
    parse_entry_accepted head p l good accepted =
        rw (parse_entry_good head p.0 p.1 l good, accepted)

    parse_entries-cell :
        (head list : Term) (l l' : Log)
        → parse_entry nif set_value head l ≡ (none, l')
        → parse_entries nif set_value (cell head list) l ≡ parse_entries nif set_value list l'
    unfolding parse_entries
    parse_entries-cell head list l l' e = ground arith

    -- The loop goes on past the entry exactly when it is a pair of texts that is accepted.
    step-ok :
        (head list : Term) (l l' : Log)
        → parse_entries nif set_value (cell head list) l ≡ (ok_term, l')
        → (e : Bytes × Bytes) × (entry_of head ≡ some e)
          × ((set_value e.0 e.1 l).0 ≡ none)
          × (parse_entries nif set_value list (set_value e.0 e.1 l).1 ≡ (ok_term, l'))
    unfolding parse_entries
    step-ok head list l l' h = elim (Option-cases (entry_of head)) [
      | inl e ↦ absurd (ground (arith, parse_entry_bad head l e))
      | inr ((name, value), e) ↦ elim (Option-cases (set_value name value l).0) [
        | inl accepted ↦
            ((name, value), e, accepted, ground (arith, parse_entry_good head name value l e))
        | inr (errstr, refused) ↦ absurd (ground (arith, parse_entry_good head name value l e))
      ]
    ]

    entries_sound :
        (list : Term) (l l' : Log)
        → parse_entries nif set_value list l ≡ (ok_term, l')
        → (ps : List (Bytes × Bytes)) × (entries_of list ≡ some ps)
          × (set_all set_value ps l ≡ (true, l'))
    unfolding parse_entries entries_of set_all
    entries_sound (cell head list) l l' h =
        let (e, good, accepted, rest) = step-ok head list l l' h in
        let (ps, read, done) = entries_sound list (set_value e.0 e.1 l).1 l' rest in
        (e ∷ ps, rw (good, read, entries_of), rw (accepted, set_all) done)
    entries_sound _ l l' h = ([], refl, cc)

    entries_of-cell :
        (head list : Term) (ps : List (Bytes × Bytes))
        → entries_of (cell head list) ≡ some ps
        → (p : Bytes × Bytes) × (es : List (Bytes × Bytes)) × (entry_of head ≡ some p)
          × (entries_of list ≡ some es)
          × (ps ≡ p ∷ es)
    unfolding entries_of
    entries_of-cell head list ps e = elim (Option-cases (entry_of head)) [
      | inl bad ↦ absurd (ground arith)
      | inr (p, good) ↦ elim (Option-cases (entries_of list)) [
        | inl bad ↦ absurd (ground arith)
        | inr (es, read) ↦ (p, es, good, read, ground arith)
      ]
    ]

    entries_complete :
        (list : Term) (ps : List (Bytes × Bytes)) (l l' : Log)
        → entries_of list ≡ some ps
        → set_all set_value ps l ≡ (true, l')
        → parse_entries nif set_value list l ≡ (ok_term, l')
    unfolding parse_entries entries_of set_all
    entries_complete (cell head list) ps l l' e done =
        let (p, es, good, read, split) = entries_of-cell head list ps e in
        let (accepted, rest) = set_all-cons set_value p es l l' (rw split at done) in
        let r = set_value p.0 p.1 l in
        let first = parse_entry_accepted head p l good accepted in
        parse_entries-cell head list l r.1 first ∙ entries_complete list es r.1 l' read rest
    entries_complete _ ps l l' e done = ground arith

    -- `parse_config` answers ok exactly when its argument is a list of pairs of texts and setting
    -- those values in order succeeds; the log is then that of setting them.
    pub parse_config-ok_iff :
        (list : Term) (l l' : Log)
        → (parse_config nif set_value list l ≡ (ok_term, l')) ↔ (
            (is_list list ≡ true)
            × (ps : List (Bytes × Bytes)) × (entries_of list ≡ some ps)
            × (set_all set_value ps l ≡ (true, l')))
    unfolding parse_config
    parse_config-ok_iff list l l' = elim (Bool-cases (is_list list)) [
      | inl e ↦ (
        λ h. let (ps, read, done) = entries_sound list l l' (ground arith) in (e, ps, read, done),
        λ (_, ps, read, done). rw (e, parse_config) (entries_complete list ps l l' read done),
      )
      | inr e ↦ (λ h. absurd (ground arith), λ q. absurd (ground (arith, q.0)))
    ]
