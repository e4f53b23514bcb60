-- ===== src/Listening/Dispatch.antt =====
-- That each message reaches the handlers of its channel: backend/app/bus.py against a specification without
-- the dictionary.
use sentri_mesh_astra.Prelude.{
  String, ◌≡◌, refl, sym, ap, ◌∙◌, inl, inr, Bool, true, false, Option, none, some, List, [], ◌∷◌,
  ◌++◌, arith, str_eq, eq_iff, if◌then◌else◌, Bool-cases, append-nothing, append-last,
}
use sentri_mesh_astra.Listening.{
  receive, listen_loop, Handler, Handlers, Incoming, subscribe, handlers_of, call_all, register_all,
}

other_channel :
    (channel c d : String) → str_eq c d ≡ false → str_eq channel d ≡ true → str_eq channel c ≡ false
other_channel channel c d differ e = elim (Bool-cases (str_eq channel c)) [
  | inl f ↦
      let equal : str_eq c d ≡ true =
        (eq_iff c d).1 (sym ((eq_iff channel c).0 f) ∙ (eq_iff channel d).0 e) in
      ground (arith, equal, differ)
  | inr f ↦ f
]

module _ {P S : Type 0} where
  -- The handlers that were subscribed to a channel, in the order of the subscriptions.
  abbrev pub subscribed : String → List (String × Handler P S) → List (Handler P S)
  subscribed channel [] = []
  subscribed channel ((c, h) ∷ rest) =
      if str_eq channel c then h ∷ subscribed channel rest else subscribed channel rest

  abbrev one_if : Bool → Handler P S → List (Handler P S)
  one_if b h = if b then h ∷ [] else []

  own_entry :
      (b : Bool) (h : Handler P S) (hs more : List (Handler P S))
      → (if b then hs ++ h ∷ [] else more) ≡ (if b then hs else more) ++ one_if b h
  own_entry true h hs more = refl
  own_entry false h hs more = sym (append-nothing more)

  -- The first entry of the dictionary, by whether it is of the one channel or the other.
  entry_of :
      (channel c d : String) (h : Handler P S) (hs : List (Handler P S)) (rest : Handlers P S)
      → (handlers_of channel (subscribe c h rest)
          ≡ handlers_of channel rest ++ one_if (str_eq channel c) h)
      → handlers_of channel (subscribe c h ((d, hs) ∷ rest))
        ≡ handlers_of channel ((d, hs) ∷ rest) ++ one_if (str_eq channel c) h
  unfolding handlers_of subscribe
  entry_of channel c d h hs rest later = elim (Bool-cases (str_eq c d)) [
    | inl same ↦
        rw (same, ap (str_eq channel) ((eq_iff c d).0 same))
          (own_entry (str_eq channel d) h hs (handlers_of channel rest))
    | inr other ↦ elim (Bool-cases (str_eq channel d)) [
      | inl here ↦ rw (other, here, other_channel channel c d other here) (sym (append-nothing hs))
      | inr past ↦ rw (other, past) later
    ]
  ]

  handlers_of-subscribe :
      (channel c : String) (h : Handler P S) (table : Handlers P S)
      → handlers_of channel (subscribe c h table)
        ≡ handlers_of channel table ++ one_if (str_eq channel c) h
  unfolding handlers_of subscribe
  handlers_of-subscribe channel c h [] = refl
  handlers_of-subscribe channel c h ((d, hs) ∷ rest) =
      entry_of channel c d h hs rest (handlers_of-subscribe channel c h rest)

  one_more :
      (b : Bool) (h : Handler P S) (hs more : List (Handler P S))
      → (hs ++ one_if b h) ++ more ≡ hs ++ (if b then h ∷ more else more)
  one_more true h hs more = append-last hs more h
  one_more false h hs more = ap (λ l. l ++ more) (append-nothing hs)

  -- What the dictionary has for a channel after the subscriptions.
  handlers_of-register_all :
      (channel : String) (subs : List (String × Handler P S)) (table : Handlers P S)
      → handlers_of channel (register_all subs table)
        ≡ handlers_of channel table ++ subscribed channel subs
  unfolding register_all
  handlers_of-register_all channel [] table = sym (append-nothing (handlers_of channel table))
  handlers_of-register_all channel ((c, h) ∷ rest) table =
      handlers_of-register_all channel rest (subscribe c h table)
      ∙ ap (λ l. l ++ subscribed channel rest) (handlers_of-subscribe channel c h table)
      ∙ one_more (str_eq channel c) h (handlers_of channel table) (subscribed channel rest)

  -- A message as the agents have it: through the list of all subscriptions, in order. What a handler
  -- raises ends that handler only.
  abbrev pub deliver : List (String × Handler P S) → String → P → S → S
  deliver [] channel payload s = s
  deliver ((c, h) ∷ rest) channel payload s =
      deliver rest channel payload (if str_eq channel c then (h payload s).1 else s)

  abbrev pub deliver_all : List (String × Handler P S) → List (Incoming P) → S → S
  deliver_all subs [] s = s
  deliver_all subs (m ∷ ms) s = deliver_all subs ms (elim m.payload [
    | none ↦ s
    | some p ↦ if str_eq m.kind "message" then deliver subs m.channel p s else s
  ])

  call_all-subscribed :
      (channel : String) (subs : List (String × Handler P S)) (payload : P) (s : S)
      → call_all (subscribed channel subs) payload s ≡ deliver subs channel payload s
  unfolding call_all
  call_all-subscribed channel [] payload s = refl
  call_all-subscribed channel ((c, h) ∷ rest) payload s = elim (Bool-cases (str_eq channel c)) [
    | inl here ↦ rw here (call_all-subscribed channel rest payload (h payload s).1)
    | inr past ↦ rw past (call_all-subscribed channel rest payload s)
  ]

  turn :
      (subs : List (String × Handler P S)) (channel : String) (o : Option P) (real : Bool) (s : S)
      → (if real
          then elim o [
            | none ↦ s
            | some payload ↦ call_all (handlers_of channel (register_all subs [])) payload s
          ]
          else s)
        ≡ elim o [ none ↦ s | some payload ↦ if real then deliver subs channel payload s else s ]
  unfolding handlers_of
  turn subs channel none true s = refl
  turn subs channel none false s = refl
  turn subs channel (some payload) false s = refl
  turn subs channel (some payload) true s =
      ap (λ hs. call_all hs payload s) (handlers_of-register_all channel subs [])
      ∙ call_all-subscribed channel subs payload s

  -- The loop, after any subscriptions in any order, does with the messages that arrive what the list of the
  -- subscriptions does without a dictionary: each message that is no malformed text and no confirmation
  -- goes to every handler of its channel, in the order of their subscriptions, each from the state that the
  -- one before has left, also if that one has raised.
  pub listen_loop-register_all :
      (subs : List (String × Handler P S)) (messages : List (Incoming P)) (s : S)
      → listen_loop (register_all subs []) messages s ≡ deliver_all subs messages s
  unfolding listen_loop receive
  listen_loop-register_all subs [] s = refl
  listen_loop-register_all subs (m ∷ ms) s =
      ap (λ after. listen_loop (register_all subs []) ms after)
        (turn subs m.channel m.payload (str_eq m.kind "message") s)
      ∙ listen_loop-register_all subs ms (elim m.payload [
        | none ↦ s
        | some p ↦ if str_eq m.kind "message" then deliver subs m.channel p s else s
      ])
