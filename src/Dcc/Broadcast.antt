-- ===== src/Dcc/Broadcast.antt =====
-- dcc_service.go: the broadcast of a setting to the other instances over a Redis channel. A message is
-- the object that its JSON encodes, or none where the text is no JSON. An instance receives the
-- messages of the channel in their order, its own too. A publication that fails is a lost message.
use group_buy_market.Prelude.{
  ℕ, ◌≡◌, refl, sym, ◌∙◌, ◌⊎◌, inl, inr, Bool, true, false, ◌||◌, ◌&&◌, if◌then◌else◌, String,
  str_eq, Option, none, some, List, [], ◌∷◌, Bool-cases,
}
use group_buy_market.Dcc.{Service, apply_local, snapshot}
use group_buy_market.Dcc.Settings.{is_known, apply_local-snapshot}

pub record Attribute : Type 0 where
  pub key : String
  pub value : List ℕ
  pub origin : String

-- A service with its broadcast, if it has a publisher.
pub record Instance : Type 0 where
  pub settings : Service
  pub publishes : Bool
  pub instance_id : String

-- `New`, and `EnableBroadcast`, where an empty name leaves "local".
abbrev pub new_instance : Service → Instance
new_instance s = record { settings = s; publishes = false; instance_id = "local" }

abbrev pub enable_broadcast : String → Instance → Instance
enable_broadcast instance_id inst = record inst {
  publishes = true;
  instance_id = if str_eq instance_id "" then inst.instance_id else instance_id;
}

-- What `broadcast` hands to the publisher.
abbrev pub broadcast : String → List ℕ → Instance → Option Attribute
broadcast key value inst =
    if inst.publishes
    then some (record { key = key; value = value; origin = inst.instance_id })
    else none

unfoldable pub update : String → List ℕ → Instance → Instance × Option Attribute
unfolding apply_local
update key value inst =
    let changed = record inst { settings = apply_local key value inst.settings } in
    (changed, broadcast key value changed)

-- The subscription's handler.
unfoldable pub receive : Option Attribute → Instance → Instance
unfolding apply_local
receive none inst = inst
receive (some msg) inst = record inst { settings = apply_local msg.key msg.value inst.settings }

unfoldable pub receive_all : List (Option Attribute) → Instance → Instance
unfolding receive
receive_all [] inst = inst
receive_all (m ∷ ms) inst = receive_all ms (receive m inst)

-- One of the messages sets the key.
abbrev pub sets : String → List (Option Attribute) → Bool
sets key [] = false
sets key (none ∷ ms) = sets key ms
sets key (some m ∷ ms) = (is_known m.key && str_eq key m.key) || sets key ms

abbrev AgreeOn : String → Instance → Instance → Type 0
AgreeOn key a b = snapshot a.settings key ≡ snapshot b.settings key

-- After a message that sets the key both instances have its value, and after any other message they
-- have what they had.
agree_step :
    (key : String) (m : Attribute) (a b : Instance) (c : Bool)
    → (is_known m.key && str_eq key m.key) ≡ c
    → AgreeOn key a b ⊎ (c ≡ true)
    → AgreeOn key (receive (some m) a) (receive (some m) b)
unfolding receive
agree_step key m a b c e h =
    apply_local-snapshot m.key key m.value a.settings
    ∙ rw e (either c h)
    ∙ sym (apply_local-snapshot m.key key m.value b.settings)
  where
    either :
        (x : Bool)
        → AgreeOn key a b ⊎ (x ≡ true)
        → (if x then some m.value else snapshot a.settings key)
          ≡ (if x then some m.value else snapshot b.settings key)
    either true k = refl
    either false (inl k) = k
    either false (inr k) = cc

agree_all :
    (key : String) (ms : List (Option Attribute)) (a b : Instance)
    → AgreeOn key a b ⊎ (sets key ms ≡ true)
    → AgreeOn key (receive_all ms a) (receive_all ms b)
unfolding receive_all receive
agree_all key [] a b (inl h) = h
agree_all key [] a b (inr h) = cc
agree_all key (none ∷ ms) a b h = agree_all key ms a b h
agree_all key (some m ∷ ms) a b h = elim (Bool-cases (is_known m.key && str_eq key m.key)) [
  | inl hit ↦
      agree_all key ms (receive (some m) a) (receive (some m) b)
        (inl (agree_step key m a b true hit (inr refl)))
  | inr miss ↦ agree_all key ms (receive (some m) a) (receive (some m) b) (later miss h)
]
  where
    later :
        (is_known m.key && str_eq key m.key) ≡ false
        → AgreeOn key a b ⊎ (sets key (some m ∷ ms) ≡ true)
        → AgreeOn key (receive (some m) a) (receive (some m) b) ⊎ (sets key ms ≡ true)
    later miss (inl agree) = inl (agree_step key m a b false miss (inl agree))
    later miss (inr set) = inr (rw miss at set)

-- Two instances that receive the same messages in the same order and change nothing themselves
-- between them agree, whatever they had before, on every setting that one of the messages sets. The
-- messages that an instance published itself are among them.
pub receive_all-agree :
    (key : String) (ms : List (Option Attribute)) (a b : Instance)
    → sets key ms ≡ true
    → snapshot (receive_all ms a).settings key ≡ snapshot (receive_all ms b).settings key
receive_all-agree key ms a b h = agree_all key ms a b (inr h)
