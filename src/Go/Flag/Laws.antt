-- ===== src/Go/Flag/Laws.antt =====
-- Go's package `flag`: Parse stops at the first argument that is no flag.
use mathlib.Core.List.{append_assoc}
use k8s_health_ai.Prelude.{
  String, Option, none, some, List, [], ◌∷◌, ◌++◌, map, ◌≡◌, refl, sym, ap, ◌∙◌, ◌⊎◌, inl, inr,
  arith, eq_iff, Option-cases, true,
}
use k8s_health_ai.Go.Flag.{
  Value, text, switch, Flags, Parsed, parsed, help, failed, Argument, plain, terminator, bad_syntax,
  flag, Step, leave, drop, stop, took, took_two, set_flag, flag_value, read_argument, unknown_flag,
  set_switch, set_text, set_value, parse_bool, parse_one, parse,
}

-- An argument that does not begin with a minus sign, or the sign alone.
abbrev pub IsPlain : String → Type 0
IsPlain s = read_argument s ≡ plain

module _ (quote : String → String) where
  -- What stands behind a plain argument is left alone, flags included.
  pub parse-plain :
      (fs : Flags) (s : String) (args : List String)
      → IsPlain s
      → parse quote fs (s ∷ args) ≡ parsed fs (s ∷ args)
  unfolding parse parse_one
  parse-plain fs s [] h = rw (h, parse) refl
  parse-plain fs s (t ∷ args) h = rw (h, parse) refl

  -- the names of the flags
  abbrev names : Flags → List String
  names = map λ (f : String × Value). f.0

  names-set_flag : (name : String) (v : Value) (fs : Flags) → names (set_flag name v fs) ≡ names fs
  unfolding set_flag
  names-set_flag name v [] = refl
  names-set_flag name v (f ∷ fs) = ground (arith, eq_iff f.0 name, names-set_flag name v fs)

  -- The flags keep their names, and the arguments are a part at the end.
  pub record Reads (fs : Flags) (args : List String) (fs' : Flags) (left : List String)
      : Type 0 where
    pub taken : List String
    pub split : args ≡ taken ++ left
    pub same_flags : names fs' ≡ names fs

  -- what one round takes keeps the names
  abbrev Keeps : Flags → Step → Type 0
  Keeps fs (took fs') = names fs' ≡ names fs
  Keeps fs (took_two fs') = names fs' ≡ names fs
  Keeps fs (stop (parsed fs' left)) = ⊥
  Keeps fs _ = Unit

  set_value-Keeps :
      (fs : Flags) (name : String) (value next : Option String) (old : Option Value)
      → Keeps fs (set_value quote fs name value next old)
  unfolding set_value unknown_flag set_switch set_text
  set_value-Keeps fs name value next none = ground arith
  set_value-Keeps fs name none next (some (switch b)) = names-set_flag name (switch true) fs
  set_value-Keeps fs name (some v) next (some (switch b)) = elim (Option-cases (parse_bool v)) [
    | inl e ↦ rw (e, set_switch) tt
    | inr (d, e) ↦ rw (e, set_switch) (names-set_flag name (switch d) fs)
  ]
  set_value-Keeps fs name (some v) next (some (text s)) = names-set_flag name (text v) fs
  set_value-Keeps fs name none none (some (text s)) = tt
  set_value-Keeps fs name none (some v) (some (text s)) = names-set_flag name (text v) fs

  parse_one-Keeps :
      (fs : Flags) (s : String) (next : Option String) (a : Argument)
      → Keeps fs (parse_one quote fs s next a)
  unfolding parse_one
  parse_one-Keeps fs s next plain = tt
  parse_one-Keeps fs s next terminator = tt
  parse_one-Keeps fs s next bad_syntax = tt
  parse_one-Keeps fs s next (flag name value) =
      set_value-Keeps fs name value next (flag_value name fs)

  abbrev ReadsIf : Flags → List String → Parsed → Type 0
  ReadsIf fs args (parsed fs' left) = Reads fs args fs' left
  ReadsIf fs args _ = Unit

  Step-cases :
      (st : Step)
      → (st ≡ leave)
        ⊎ (st ≡ drop)
        ⊎ ((p : Parsed) × (st ≡ stop p))
        ⊎ ((fs : Flags) × (st ≡ took fs))
        ⊎ ((fs : Flags) × (st ≡ took_two fs))
  Step-cases leave = inl refl
  Step-cases drop = inr (inl refl)
  Step-cases (stop p) = inr (inr (inl (p, refl)))
  Step-cases (took fs) = inr (inr (inr (inl (fs, refl))))
  Step-cases (took_two fs) = inr (inr (inr (inr (fs, refl))))

  -- an answer that ends the loop reads nothing
  stop-ReadsIf :
      (fs : Flags) (args : List String) (p : Parsed) → Keeps fs (stop p) → ReadsIf fs args p
  stop-ReadsIf fs args (parsed fs' left) h = absurd h
  stop-ReadsIf fs args help h = tt
  stop-ReadsIf fs args (failed msg) h = tt

  -- the rounds behind one that took arguments
  later-ReadsIf :
      (fs fs' : Flags) (front args : List String) (p : Parsed)
      → names fs' ≡ names fs
      → ReadsIf fs' args p
      → ReadsIf fs (front ++ args) p
  later-ReadsIf fs fs' front args (parsed fs'' left) e r = record {
    taken = front ++ r.taken;
    split = ap (λ l. front ++ l) r.split ∙ sym (append_assoc front r.taken left);
    same_flags = r.same_flags ∙ e;
  }
  later-ReadsIf fs fs' front args help e r = tt
  later-ReadsIf fs fs' front args (failed msg) e r = tt

  parse-ReadsIf : (fs : Flags) (args : List String) → ReadsIf fs args (parse quote fs args)
  unfolding parse
  parse-ReadsIf fs [] = record { taken = []; split = refl; same_flags = refl }
  parse-ReadsIf fs (s ∷ []) =
      let keeps = parse_one-Keeps fs s none (read_argument s) in
      elim (Step-cases (parse_one quote fs s none (read_argument s))) [
        | inl e ↦ rw (e, parse) (record { taken = []; split = refl; same_flags = refl })
        | inr (inl e) ↦ rw (e, parse) (record { taken = s ∷ []; split = refl; same_flags = refl })
        | inr (inr (inl (p, e))) ↦ rw (e, parse) (stop-ReadsIf fs (s ∷ []) p (rw e at keeps))
        | inr (inr (inr (inl (fs', e)))) ↦
            rw (e, parse) (record { taken = s ∷ []; split = refl; same_flags = rw e at keeps })
        | inr (inr (inr (inr (fs', e)))) ↦
            rw (e, parse) (record { taken = s ∷ []; split = refl; same_flags = rw e at keeps })
      ]
  parse-ReadsIf fs (s ∷ t ∷ rest) =
      let keeps = parse_one-Keeps fs s (some t) (read_argument s) in
      elim (Step-cases (parse_one quote fs s (some t) (read_argument s))) [
        | inl e ↦ rw (e, parse) (record { taken = []; split = refl; same_flags = refl })
        | inr (inl e) ↦ rw (e, parse) (record { taken = s ∷ []; split = refl; same_flags = refl })
        | inr (inr (inl (p, e))) ↦ rw (e, parse) (stop-ReadsIf fs (s ∷ t ∷ rest) p (rw e at keeps))
        | inr (inr (inr (inl (fs', e)))) ↦
            rw (e, parse)
              (later-ReadsIf fs fs' (s ∷ []) (t ∷ rest) (parse quote fs' (t ∷ rest)) (rw e at keeps)
                (parse-ReadsIf fs' (t ∷ rest)))
        | inr (inr (inr (inr (fs', e)))) ↦
            rw (e, parse)
              (later-ReadsIf fs fs' (s ∷ t ∷ []) rest (parse quote fs' rest) (rw e at keeps)
                (parse-ReadsIf fs' rest))
      ]

  -- Where Parse returns with no error, the arguments left are the end of those given, and no flag
  -- was added or dropped.
  pub parse-Reads :
      (fs fs' : Flags) (args left : List String)
      → parse quote fs args ≡ parsed fs' left
      → Reads fs args fs' left
  parse-Reads fs fs' args left h = rw h at (parse-ReadsIf fs args)
