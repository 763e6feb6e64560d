-- ===== src/Daemon/Configure/Asked.antt =====
-- src/ndppd.cc, `configure`: the proxies against what a configuration says, entry by entry.
use ndppd.Base.{
  ℕ, ◌+◌, ◌≤◌, ◌≡◌, refl, ap, ◌∙◌, Bool, true, false, ◌&&◌, ◌||◌, ◌==◌, List, [], ◌∷◌, map, Option,
  none, some, arith, Bytes, codes, equal_text,
}
use ndppd.Base.Int.{ℤ, pos, negsuc}
use ndppd.Address.Parse.{of_string, atoi}
use ndppd.Tables.{to_lower, is_between}
use ndppd.Session.{Config}
use ndppd.World.{ok, Ensures_ok}
use ndppd.Proxy.Options.{new_config, non_negative, set_ttl, set_deadtime, set_timeout}
use ndppd.Conf.{Conf, find, find_all}
use ndppd.Conf.Load.{value, entries, has}
use ndppd.Daemon.{Daemon}
use ndppd.Daemon.Configure.{System, as_bool, as_int, flag, number, set_options, configure}
use ndppd.Daemon.Configure.Tables.{Shape, View, wanted_rule, wanted}
use ndppd.Daemon.Configure.Order.{views, ViewsAfter, configure-ViewsAfter}

-- A word, given by its small and its capital letters.
abbrev is_word : Bytes → Bytes → Bytes → Bool
is_word [] [] [] = true
is_word (l ∷ ls) (u ∷ us) (c ∷ cs) = ((c == l) || (c == u)) && is_word ls us cs
is_word _ _ _ = false

-- "true" or "yes", in letters of any case.
abbrev says_yes : Bytes → Bool
says_yes text =
    is_word (codes "true") (codes "TRUE") text || is_word (codes "yes") (codes "YES") text

-- What the first entry of this name says, or the default.
abbrev said : {A : Type 0} → Bytes → A → (Bytes → A) → Conf → A
said name default read cf = elim (find name (entries cf)) [
  | none ↦ default
  | some x ↦ read (value x)
]

abbrev unless_negative : ℤ → ℤ → ℤ
unless_negative (pos n) default = pos n
unless_negative (negsuc n) default = default

-- The address of a rule, whether it is an auto rule, and `autovia` where it has an interface.
abbrev pub asked_rule : System → Conf → Shape
asked_rule sys ru = (
  of_string sys.pton (value ru),
  elim (find (codes "iface") (entries ru)) [
    | some x ↦ false
    | none ↦ elim (find (codes "auto") (entries ru)) [ none ↦ false | some x ↦ true ]
  ],
  elim (find (codes "iface") (entries ru)) [
    | none ↦ none
    | some x ↦ some (said (codes "autovia") false says_yes ru)
  ],
)

abbrev asked_ttl : Conf → ℤ
asked_ttl pr = unless_negative (said (codes "ttl") (pos 30000) atoi pr) (pos 30000)

-- The options of a proxy. Without a `deadtime`, it is the `ttl`.
abbrev asked_options : Conf → Config
asked_options pr = record {
  ifa = 0;
  router = said (codes "router") true says_yes pr;
  autowire = said (codes "autowire") false says_yes pr;
  retries = said (codes "retries") (pos 3) atoi pr;
  keepalive = said (codes "keepalive") true says_yes pr;
  ttl = asked_ttl pr;
  deadtime = unless_negative (said (codes "deadtime") (asked_ttl pr) atoi pr) (pos 30000);
  timeout = unless_negative (said (codes "timeout") (pos 500) atoi pr) (pos 500);
}

abbrev pub asked : System → Conf → View
asked sys pr = (
  (asked_options pr, said (codes "promiscuous") false says_yes pr),
  map (asked_rule sys) (find_all (codes "rule") (entries pr)),
)

-- The letters of two words, one by one.
abbrev IsCased : Bytes → Bytes → Type 0
IsCased [] [] = Unit {0}
IsCased (l ∷ ls) (u ∷ us) = ((65 ≤ u) × ((u ≤ 90) × (l ≡ u + 32))) × IsCased ls us
IsCased _ _ = ⊥

lower_at : (c l u : ℕ) → 65 ≤ u → u ≤ 90 → l ≡ u + 32 → (to_lower c == l) ≡ ((c == l) || (c == u))
unfolding to_lower is_between
lower_at c l u lo hi e = ground arith

lower_word :
    (ls us text : Bytes) → IsCased ls us → equal_text (map to_lower text) ls ≡ is_word ls us text
unfolding equal_text
lower_word [] [] [] h = refl
lower_word [] [] (c ∷ text) h = refl
lower_word (l ∷ ls) (u ∷ us) [] h = refl
lower_word (l ∷ ls) (u ∷ us) (c ∷ text) h =
    rw (lower_at c l u h.0.0 h.0.1.0 h.0.1.1, lower_word ls us text h.1) refl
lower_word [] (u ∷ us) text h = absurd h
lower_word (l ∷ ls) [] text h = absurd h

as_bool-says_yes : (cf : Conf) → as_bool cf ≡ says_yes (value cf)
unfolding as_bool
as_bool-says_yes cf =
    rw
      (
        lower_word (codes "true") (codes "TRUE") (value cf) cased_true,
        lower_word (codes "yes") (codes "YES") (value cf) cased_yes,
      )
      refl
  where
    cased : (u : ℕ) → 65 ≤ u → u ≤ 90 → (65 ≤ u) × ((u ≤ 90) × (u + 32 ≡ u + 32))
    cased u lo hi = (lo, (hi, refl))

    cased_true : IsCased (codes "true") (codes "TRUE")
    cased_true = (
      cased 84 (omega arith) (omega arith),
      (
        cased 82 (omega arith) (omega arith),
        (cased 85 (omega arith) (omega arith), (cased 69 (omega arith) (omega arith), tt)),
      ),
    )

    cased_yes : IsCased (codes "yes") (codes "YES")
    cased_yes = (
      cased 89 (omega arith) (omega arith),
      (cased 69 (omega arith) (omega arith), (cased 83 (omega arith) (omega arith), tt)),
    )

flag-said :
    (name : Bytes) (default : Bool) (cf : Conf)
    → flag name default cf ≡ said name default says_yes cf
unfolding flag
flag-said name default cf = at (find name (entries cf))
  where
    at :
        (o : Option Conf)
        → (elim o [ none ↦ default | some x ↦ as_bool x ])
          ≡ (elim o [ none ↦ default | some x ↦ says_yes (value x) ])
    at none = refl
    at (some x) = as_bool-says_yes x

number-said :
    (name : Bytes) (default : ℤ) (cf : Conf) → number name default cf ≡ said name default atoi cf
unfolding number as_int
number-said name default cf = refl

non_negative-unless_negative : (z default : ℤ) → non_negative z default ≡ unless_negative z default
unfolding non_negative
non_negative-unless_negative (pos n) default = ground arith
non_negative-unless_negative (negsuc n) default = ground arith

set_options-asked_options : (cf : Conf) → set_options cf (new_config 0) ≡ asked_options cf
unfolding set_options set_ttl set_deadtime set_timeout new_config
set_options-asked_options cf =
    rw
      (
        flag-said (codes "router") true cf,
        flag-said (codes "autowire") false cf,
        flag-said (codes "keepalive") true cf,
        number-said (codes "retries") (pos 3) cf,
        number-said (codes "ttl") (pos 30000) cf,
        non_negative-unless_negative (said (codes "ttl") (pos 30000) atoi cf) (pos 30000),
        number-said (codes "deadtime") (asked_ttl cf) cf,
        non_negative-unless_negative (said (codes "deadtime") (asked_ttl cf) atoi cf) (pos 30000),
        number-said (codes "timeout") (pos 500) cf,
        non_negative-unless_negative (said (codes "timeout") (pos 500) atoi cf) (pos 500),
      )
      refl

wanted_rule-asked_rule : (sys : System) (ru : Conf) → wanted_rule sys ru ≡ asked_rule sys ru
unfolding has
wanted_rule-asked_rule sys ru =
    ap
      (λ (via : Bool). (
        of_string sys.pton (value ru),
        elim (find (codes "iface") (entries ru)) as (λ _. Bool) [
          | none ↦ has (codes "auto") ru
          | some x ↦ false
        ],
        elim (find (codes "iface") (entries ru)) as (λ _. Option Bool) [
          | none ↦ none
          | some x ↦ some via
        ],
      ))
      (flag-said (codes "autovia") false ru)

map-same : {A B : Type 0} (f g : A → B) (xs : List A) → ((x : A) → f x ≡ g x) → map f xs ≡ map g xs
map-same f g [] h = refl
map-same f g (x ∷ xs) h = rw (h x, map-same f g xs h) refl

wanted-asked : (sys : System) (cf : Conf) → wanted sys cf ≡ asked sys cf
wanted-asked sys cf =
    rw
      (
        set_options-asked_options cf,
        flag-said (codes "promiscuous") false cf,
        map-same (wanted_rule sys) (asked_rule sys) (find_all (codes "rule") (entries cf))
            (wanted_rule-asked_rule sys),
      )
      refl

-- Where `configure` succeeds, the daemon has one proxy for each proxy of the configuration, in
-- the same order. Each option of a proxy is what its first entry of that name says, or else its
-- default: for a switch, whether the text is true or yes in letters of any case, for a number,
-- what `atoi` reads, with the fallback of a negative time; without a `deadtime`, it is the
-- `ttl`. Its rules are those of the configuration, in the same order: the address that
-- `parse_string` leaves, whether it is an auto rule, and autovia. Which interfaces they have is
-- not part of the statement.
pub configure-views :
    (sys : System) (cf : Conf) (d : Daemon)
    → configure sys cf ≡ ok (some d)
    → views d.world ≡ map (asked sys) (find_all (codes "proxy") (entries cf))
configure-views sys cf d e =
    Ensures_ok (ViewsAfter sys cf) (configure sys cf) (some d) (configure-ViewsAfter sys cf) e
    ∙ map-same (wanted sys) (asked sys) (find_all (codes "proxy") (entries cf)) (wanted-asked sys)
