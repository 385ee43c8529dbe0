-- ===== src/Scheduler/Rules.antt =====
-- The guards of `dispatchMessage` against the rules of the channels.
use wealth.Prelude.{
  Bool-cases, List, Option-cases, Text, [], arith, false, inl, inr, is_empty, lit, not, refl, same,
  same_iff, same_refl, some, true, ◌&&◌, ◌∷◌, ◌≡◌, ◌≢◌, ◌⊎◌, text_eq,
}
use wealth.Scheduler.{
  Channel, Sender, email, is_addressed, ntfy, pushover, sender_of, start_sender, webhook,
}

-- The rules of the channels, in words: a channel is enabled, takes the category or all of them, and
-- takes a digest only if it wants digests, and those of the frequency that is asked for, if one is.
pub record TakesMessage (category freq : Text) (ch : Channel) : Type 0 where
  pub switched_on : ch.enabled ≡ true
  pub takes_category : (ch.channel_for ≡ lit "all") ⊎ (ch.channel_for ≡ category)
  pub wants_digest : category ≡ lit "digest" → ch.digest_frequency ≢ lit "never"
  pub wants_now : category ≡ lit "digest" → freq ≢ [] → ch.digest_frequency ≡ freq

same-false : (s t : Text) → s ≢ t → same s t ≡ false
same-false s t n = elim (Bool-cases (same s t)) [
  | inl e ↦ absurd (n ((same_iff s t).0 e))
  | inr e ↦ e
]

pub TakesMessage-of :
    (category freq : Text) (ch : Channel)
    → is_addressed category freq ch ≡ true
    → TakesMessage category freq ch
unfolding is_addressed
TakesMessage-of category freq ch h = record {
  switched_on = ground arith;
  takes_category =
      ground (arith, same_iff ch.channel_for (lit "all"), same_iff ch.channel_for category);
  wants_digest = λ d n. ground (
    arith,
    (same_iff category (lit "digest")).1 d,
    (same_iff ch.digest_frequency (lit "never")).1 n,
  );
  wants_now = λ d n. ground (
    arith,
    (same_iff category (lit "digest")).1 d,
    same_iff ch.digest_frequency freq,
    is_empty-false freq n,
  );
}
  where
    is_empty-false : (s : Text) → s ≢ [] → is_empty s ≡ false
    is_empty-false [] n = absurd (n refl)
    is_empty-false (c ∷ s) n = refl

pub addressed-of :
    (category freq : Text) (ch : Channel)
    → TakesMessage category freq ch
    → is_addressed category freq ch ≡ true
unfolding is_addressed
addressed-of category freq ch m = elim (Bool-cases (same category (lit "digest"))) [
  | inr other ↦ ground (
    arith,
    other,
    m.switched_on,
    m.takes_category,
    same_iff ch.channel_for (lit "all"),
    same_iff ch.channel_for category,
  )
  | inl digest ↦
      let d = (same_iff category (lit "digest")).0 digest in
      ground (
        arith,
        digest,
        m.switched_on,
        m.takes_category,
        same_iff ch.channel_for (lit "all"),
        same_iff ch.channel_for category,
        same-false ch.digest_frequency (lit "never") (m.wants_digest d),
        frequent freq (m.wants_now d),
      )
]
  where
    frequent :
        (asked : Text)
        → (asked ≢ [] → ch.digest_frequency ≡ asked)
        → (not (is_empty asked) && not (same ch.digest_frequency asked)) ≡ false
    frequent [] h = refl
    frequent (c ∷ s) h = rw (h (λ e. ground arith), same_refl (c ∷ s)) refl

-- The word in the column `type` for a sender.
abbrev pub type_of : Sender → Text
type_of ntfy = lit "ntfy"
type_of webhook = lit "webhook"
type_of email = lit "email"
type_of pushover = lit "pushover"

sender_of-type_of :
    (type : Text) (sender : Sender) → sender_of type ≡ some sender → type ≡ type_of sender
unfolding sender_of
sender_of-type_of type sender h = ground (
  arith,
  same_iff type (lit "ntfy"),
  same_iff type (lit "webhook"),
  same_iff type (lit "email"),
  same_iff type (lit "pushover"),
)

pub start_sender-type_of :
    (ch : Channel) (sender : Sender)
    → start_sender ch ≡ some sender
    → ((config : List (Text × Text)) × (ch.config ≡ some config)) × (ch.type ≡ type_of sender)
unfolding start_sender sender_of
start_sender-type_of ch sender h = elim (Option-cases ch.config) [
  | inl n ↦ ground arith
  | inr (config, e) ↦ ((config, e), sender_of-type_of ch.type sender (ground arith))
]

pub start_sender-known :
    (ch : Channel) (sender : Sender) (config : List (Text × Text))
    → ch.config ≡ some config
    → ch.type ≡ type_of sender
    → start_sender ch ≡ some sender
unfolding start_sender sender_of same
start_sender-known ch ntfy config e t = rw (e, t) refl
start_sender-known ch webhook config e t = rw (e, t) refl
start_sender-known ch email config e t = rw (e, t) refl
start_sender-known ch pushover config e t = rw (e, t) refl
