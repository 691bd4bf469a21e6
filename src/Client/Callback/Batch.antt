-- ===== src/Client/Callback/Batch.antt =====
-- flask_xxljob/client/callback_client.py: a batch of results is sent whole or not at all.
use flask_xxljob.Base.{
  ℕ, suc, ◌≤◌, ◌≡◌, refl, List, [], ◌∷◌, length, length-take, take, ltb, Text, text, if◌then◌else◌,
  arith,
}
use flask_xxljob.Client.Result.{CallResult}
use flask_xxljob.Model.Value.{Values}
use flask_xxljob.Model.Request.{CallbackRequest}
use flask_xxljob.Client.Callback.{
  Item, Valid, valid, invalid, ◌>>=◌, CallbackConfig, require_int, require_str, normalize_item,
  normalize, payload, sent, callback_many, to_request, send,
}

>>=-valid :
    {A B : Type 0} (x : Valid A) (f : A → Valid B) (b : B)
    → (x >>= f) ≡ valid b
    → (a : A) × (x ≡ valid a) × (f a ≡ valid b)
>>=-valid (valid a) f b h = (a, refl, h)
>>=-valid (invalid e) f b h = absurd (ground arith)

-- A normalized request fits the message limit.
abbrev pub AllFit : ℕ → List CallbackRequest → Type 0
AllFit n [] = Unit
AllFit n (r ∷ rs) = (length r.handle_msg ≤ n) × AllFit n rs

cut_length : (n : ℕ) (s : Text) → length (if ltb n (length s) then take n s else s) ≤ n
cut_length n s = ground (arith, length-take n s)

normalize_item-fits :
    (c : CallbackConfig) (index : ℕ) (item : Item) (r : CallbackRequest)
    → normalize_item c index item ≡ valid r
    → length r.handle_msg ≤ c.callback_message_max_length
unfolding normalize_item
normalize_item-fits c index item r h =
    let (raw, _, h1) = >>=-valid (to_request index item) _ r h in
    let (a, _, h2) = >>=-valid (require_int index (text "log_id") raw.log_id) _ r h1 in
    let (b, _, h3) =
      >>=-valid (require_int index (text "log_date_time") raw.log_date_time) _ r h2 in
    let (k, _, h4) = >>=-valid (require_int index (text "handle_code") raw.handle_code) _ r h3 in
    let (m, _, h5) = >>=-valid (require_str index (text "handle_msg") raw.handle_msg) _ r h4 in
    ground (arith, h5, cut_length c.callback_message_max_length m)

-- The requests stand for the items in their order: one for each, normalized, none left out.
pub data IsNormalized (c : CallbackConfig) : ℕ → List Item → List CallbackRequest → Type 0 where
  done : (index : ℕ) → IsNormalized c index [] []
  next :
      (index : ℕ) (item : Item) (items : List Item) (r : CallbackRequest)
      (rs : List CallbackRequest)
      → normalize_item c index item ≡ valid r
      → length r.handle_msg ≤ c.callback_message_max_length
      → IsNormalized c (suc index) items rs
      → IsNormalized c index (item ∷ items) (r ∷ rs)

normalize-IsNormalized :
    (c : CallbackConfig) (index : ℕ) (items : List Item) (rs : List CallbackRequest)
    → normalize c index items ≡ valid rs
    → IsNormalized c index items rs
unfolding normalize
normalize-IsNormalized c index [] rs h = rw (nothing h) (done index)
  where
    nothing : valid [] ≡ valid rs → rs ≡ []
    nothing e = ground arith
normalize-IsNormalized c index (item ∷ items) rs h =
    let (r, first, h1) = >>=-valid (normalize_item c index item) _ rs h in
    let (tail, rest, h2) = >>=-valid (normalize c (suc index) items) _ rs h1 in
    rw (cons h2) (
      next index item items r tail first (normalize_item-fits c index item r first)
        (normalize-IsNormalized c (suc index) items tail rest))
  where
    cons :
        {r : CallbackRequest} {tail : List CallbackRequest}
        → valid (r ∷ tail) ≡ valid rs
        → rs ≡ r ∷ tail
    cons e = ground arith

send-valid :
    (post : Values → CallResult) (x : Valid (List CallbackRequest)) (p : Values)
    (result : CallResult)
    → send post x ≡ sent p result
    → (rs : List CallbackRequest) × (x ≡ valid rs) × (p ≡ payload rs) × (result ≡ post p)
send-valid post (valid rs) p result h = (rs, refl, ground arith, ground arith)
send-valid post (invalid e) p result h = absurd (ground arith)

callback_many-sends :
    (post : Values → CallResult) (c : CallbackConfig) (items : List Item) (p : Values)
    (result : CallResult)
    → callback_many post c items ≡ sent p result
    → (length items ≤ c.callback_batch_max_size) × (send post (normalize c 0 items) ≡ sent p result)
unfolding callback_many
callback_many-sends post c items p result h = ground arith

-- A batch of callbacks is sent whole or not at all: a payload that is sent holds one request for
-- each item, in their order, each item was valid, each message was cut to the configured length,
-- the batch is within the configured size, and the result is that of the one Admin call.
pub callback_many-whole :
    (post : Values → CallResult) (c : CallbackConfig) (items : List Item) (p : Values)
    (result : CallResult)
    → callback_many post c items ≡ sent p result
    → (rs : List CallbackRequest) × (p ≡ payload rs)
      × IsNormalized c 0 items rs
      × (length items ≤ c.callback_batch_max_size)
      × (result ≡ post p)
callback_many-whole post c items p result h =
    let (size, sends) = callback_many-sends post c items p result h in
    let (rs, normal, is_payload, is_result) =
      send-valid post (normalize c 0 items) p result sends in
    (rs, is_payload, normalize-IsNormalized c 0 items rs normal, size, is_result)
