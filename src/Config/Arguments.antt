-- ===== src/Config/Arguments.antt =====
-- The flags of the command line, which `main` of dtnex.c applies after `loadConfig`.
use dtnex_redesign.Base.{
  ◌≡◌, refl, sym, Bool, true, false, ◌||◌, Bool-cases, List, [], ◌∷◌, Bytes, beq, beq→eq, subst,
  inl, inr, ◌∙◌, if◌then◌else◌,
}
use dtnex_redesign.Types.{DtnexConfig}
use dtnex_redesign.Config.Lines.{codes}

-- One turn of the loop over `argv`; an unknown argument is logged and passed over.
unfoldable apply_argument : {D : Type 0} → Bytes → DtnexConfig D → DtnexConfig D
apply_argument argument c =
    if beq argument (codes "--debug")
    then record c { debug_mode = true }
    else if beq argument (codes "--service")
    then record c { service_mode = true }
    else c

unfoldable pub apply_arguments : {D : Type 0} → List Bytes → DtnexConfig D → DtnexConfig D
unfolding apply_argument
apply_arguments [] c = c
apply_arguments (argument ∷ arguments) c = apply_arguments arguments (apply_argument argument c)

-- Whether a text is among the arguments.
abbrev pub given : Bytes → List Bytes → Bool
given flag [] = false
given flag (argument ∷ arguments) = beq argument flag || given flag arguments

abbrev with_flags : {D : Type 0} → Bool → Bool → DtnexConfig D → DtnexConfig D
with_flags debug service c = record c {
  debug_mode = debug || c.debug_mode;
  service_mode = service || c.service_mode;
}

-- No text is both flags.
not_service :
    (argument : Bytes)
    → beq argument (codes "--debug") ≡ true
    → beq argument (codes "--service") ≡ false
unfolding beq
not_service argument h =
    subst (λ a. beq a (codes "--service") ≡ false) (sym (beq→eq argument (codes "--debug") h)) refl

or_true : (b : Bool) → b || true ≡ true
or_true true = refl
or_true false = refl

-- Of the configuration that the file gave only the two modes change.
pub apply_arguments-with_flags :
    {D : Type 0} (arguments : List Bytes) (c : DtnexConfig D)
    → apply_arguments arguments c
      ≡ with_flags (given (codes "--debug") arguments) (given (codes "--service") arguments) c
unfolding apply_arguments
apply_arguments-with_flags [] c = refl
apply_arguments-with_flags (a ∷ arguments) c = elim (Bool-cases (beq a (codes "--debug"))) [
  | inl e ↦
      rw (apply_arguments, apply_argument, e, not_service a e)
        (apply_arguments-with_flags arguments (record c { debug_mode = true })
          ∙ rw (or_true (given (codes "--debug") arguments)) refl)
  | inr e ↦ elim (Bool-cases (beq a (codes "--service"))) [
    | inl f ↦
        rw (apply_arguments, apply_argument, e, f)
          (apply_arguments-with_flags arguments (record c { service_mode = true })
            ∙ rw (or_true (given (codes "--service") arguments)) refl)
    | inr f ↦ rw (apply_arguments, apply_argument, e, f) (apply_arguments-with_flags arguments c)
  ]
]
