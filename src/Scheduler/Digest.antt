-- ===== src/Scheduler/Digest.antt =====
-- Who gets a message.
use wealth.Prelude.{
  All, Among, Bool-cases, List, Option-cases, Text, [], arith, false, inl, inr, none, refl, some,
  sym, true, ◌∷◌, ◌≡◌, ◌⊎◌, text_eq,
}
use mathlib.Core.Path.{subst}
use wealth.Scheduler.{Channel, Sender, dispatch_message, is_addressed, start_sender}
use wealth.Scheduler.Rules.{
  TakesMessage, TakesMessage-of, addressed-of, start_sender-known, start_sender-type_of, type_of,
}

-- A channel of the list whose guards let it pass, with its sender.
abbrev Passes : Text → Text → List Channel → Channel × Sender → Type 0
Passes category freq channels (ch, sender) =
    (is_addressed category freq ch ≡ true) × (start_sender ch ≡ some sender) × Among ch channels

Passes-later :
    (category freq : Text) (c : Channel) (channels : List Channel) (sent : List (Channel × Sender))
    → All (Passes category freq channels) sent
    → All (Passes category freq (c ∷ channels)) sent
Passes-later category freq c channels [] h = tt
Passes-later category freq c channels ((ch, sender) ∷ sent) ((a, b, m), hs) =
    ((a, b, inr m), Passes-later category freq c channels sent hs)

dispatch_message-Passes :
    (category freq : Text) (channels : List Channel)
    → All (Passes category freq channels) (dispatch_message category freq channels)
unfolding dispatch_message
dispatch_message-Passes category freq [] = tt
dispatch_message-Passes category freq (ch ∷ channels) =
    let rest =
      Passes-later category freq ch channels (dispatch_message category freq channels)
        (dispatch_message-Passes category freq channels) in
    elim (Bool-cases (is_addressed category freq ch)) [
      | inl e ↦ elim (Option-cases (start_sender ch)) [
        | inl n ↦ rw (e, n) rest
        | inr (sender, s) ↦ rw (e, s) ((e, s, inl refl), rest)
      ]
      | inr n ↦ rw n rest
    ]

-- A channel that passes the guards and has a sender is among those that are sent to.
abbrev Arrives : Text → Text → List (Channel × Sender) → Channel → Type 0
Arrives category freq sent ch =
    (is_addressed category freq ch ≡ false)
    ⊎ (start_sender ch ≡ none)
    ⊎ ((sender : Sender) × (start_sender ch ≡ some sender) × Among (ch, sender) sent)

Arrives-later :
    (category freq : Text) (s : Channel × Sender) (sent : List (Channel × Sender))
    (channels : List Channel)
    → All (Arrives category freq sent) channels
    → All (Arrives category freq (s ∷ sent)) channels
Arrives-later category freq s sent [] h = tt
Arrives-later category freq s sent (c ∷ cs) (inl n, hs) =
    (inl n, Arrives-later category freq s sent cs hs)
Arrives-later category freq s sent (c ∷ cs) (inr (inl n), hs) =
    (inr (inl n), Arrives-later category freq s sent cs hs)
Arrives-later category freq s sent (c ∷ cs) (inr (inr (k, e, m)), hs) =
    (inr (inr (k, e, inr m)), Arrives-later category freq s sent cs hs)

Arrives-same :
    (category freq : Text) (channels : List Channel) {sent after : List (Channel × Sender)}
    → sent ≡ after
    → All (Arrives category freq sent) channels
    → All (Arrives category freq after) channels
Arrives-same category freq channels = subst (λ sent. All (Arrives category freq sent) channels)

dispatch_message-skip :
    (category freq : Text) (ch : Channel) (channels : List Channel)
    → (is_addressed category freq ch ≡ false) ⊎ (start_sender ch ≡ none)
    → dispatch_message category freq (ch ∷ channels) ≡ dispatch_message category freq channels
unfolding dispatch_message
dispatch_message-skip category freq ch channels (inl n) = rw n refl
dispatch_message-skip category freq ch channels (inr n) =
    elim (Bool-cases (is_addressed category freq ch)) [ inl e ↦ rw (e, n) refl | inr m ↦ rw m refl ]

dispatch_message-send :
    (category freq : Text) (ch : Channel) (channels : List Channel) (sender : Sender)
    → is_addressed category freq ch ≡ true
    → start_sender ch ≡ some sender
    → dispatch_message category freq (ch ∷ channels)
      ≡ (ch, sender) ∷ dispatch_message category freq channels
unfolding dispatch_message
dispatch_message-send category freq ch channels sender e s = rw (e, s) refl

dispatch_message-Arrives :
    (category freq : Text) (channels : List Channel)
    → All (Arrives category freq (dispatch_message category freq channels)) channels
dispatch_message-Arrives category freq [] = tt
dispatch_message-Arrives category freq (ch ∷ channels) =
    let rest = dispatch_message-Arrives category freq channels in
    elim (Bool-cases (is_addressed category freq ch)) [
      | inl e ↦ elim (Option-cases (start_sender ch)) [
        | inl n ↦
            Arrives-same category freq (ch ∷ channels)
              (sym (dispatch_message-skip category freq ch channels (inr n))) (inr (inl n), rest)
        | inr (sender, s) ↦
            Arrives-same category freq (ch ∷ channels)
              (sym (dispatch_message-send category freq ch channels sender e s))
              (
                inr (inr (sender, s, inl refl)),
                Arrives-later category freq (ch, sender) (dispatch_message category freq channels)
                    channels rest,
              )
      ]
      | inr n ↦
          Arrives-same category freq (ch ∷ channels)
            (sym (dispatch_message-skip category freq ch channels (inl n))) (inl n, rest)
    ]

-- A channel of the list that takes the message, with the sender of its type.
abbrev pub IsReached : Text → Text → List Channel → Channel × Sender → Type 0
IsReached category freq channels (ch, sender) =
    TakesMessage category freq ch
    × (ch.type ≡ type_of sender)
    × ((config : List (Text × Text)) × (ch.config ≡ some config))
    × Among ch channels

-- If the channel takes the message, has one of the four types and a configuration that can be read,
-- it is sent to, by the sender of its type.
abbrev pub IsServed : Text → Text → List (Channel × Sender) → Channel → Type 0
IsServed category freq sent ch =
    (sender : Sender) (config : List (Text × Text))
    → TakesMessage category freq ch
    → ch.type ≡ type_of sender
    → ch.config ≡ some config
    → Among (ch, sender) sent

All-IsReached :
    (category freq : Text) (channels : List Channel) (sent : List (Channel × Sender))
    → All (Passes category freq channels) sent
    → All (IsReached category freq channels) sent
All-IsReached category freq channels [] h = tt
All-IsReached category freq channels ((ch, sender) ∷ sent) ((a, b, m), hs) =
    let (config, type) = start_sender-type_of ch sender b in
    (
      (TakesMessage-of category freq ch a, type, config, m),
      All-IsReached category freq channels sent hs,
    )

All-IsServed :
    (category freq : Text) (sent : List (Channel × Sender)) (channels : List Channel)
    → All (Arrives category freq sent) channels
    → All (IsServed category freq sent) channels
All-IsServed category freq sent [] h = tt
All-IsServed category freq sent (ch ∷ channels) (h, hs) =
    (served h, All-IsServed category freq sent channels hs)
  where
    served : Arrives category freq sent ch → IsServed category freq sent ch
    served h sender config takes type readable =
        let started = start_sender-known ch sender config readable type in
        let passes = addressed-of category freq ch takes in
        elim h [
          | inl n ↦ ground arith
          | inr (inl n) ↦ ground arith
          | inr (inr (k, e, m)) ↦
              let one : k ≡ sender = ground arith in subst (λ s. Among (ch, s) sent) one m
        ]

-- A message goes to channels of the list only that take it, each by the sender of its type, and to
-- all that take it, have one of the four types and a configuration that can be read.
pub dispatch_message_exact :
    (category freq : Text) (channels : List Channel)
    → All (IsReached category freq channels) (dispatch_message category freq channels)
      × All (IsServed category freq (dispatch_message category freq channels)) channels
dispatch_message_exact category freq channels = (
  All-IsReached category freq channels _ (dispatch_message-Passes category freq channels),
  All-IsServed category freq _ channels (dispatch_message-Arrives category freq channels),
)
