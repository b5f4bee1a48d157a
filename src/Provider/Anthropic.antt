-- ===== src/Provider/Anthropic.antt =====
-- sidecar/src/provider.rs: what the breakpoints change in a body for Anthropic.
use ghostcacher.Prelude.{◌≡◌, refl, ap, ◌∙◌, ℕ, zero, suc, ◌-◌, false, arith}
use ghostcacher.Text.{Text, lit, text_eq}
use ghostcacher.Json.{
  Value, Items, null, bool, num, str, arr, obj, nil, cons, get, get_mut, length_items,
}
use ghostcacher.Json.Laws.{lookup-adjust, adjust_idem, adjust_comm}
use ghostcacher.Provider.{mark_content, mark_messages, mark_anthropic, adjust_item}

get-get_mut :
    (k j : Text) (f : Value → Value) (v : Value)
    → text_eq j k ≡ false
    → get k (get_mut j f v) ≡ get k v
unfolding get get_mut
get-get_mut k j f (obj fs) h = lookup-adjust j k f fs ∙ rw (h) refl
get-get_mut k j f null h = refl
get-get_mut k j f (bool b) h = refl
get-get_mut k j f (num n) h = refl
get-get_mut k j f (str t) h = refl
get-get_mut k j f (arr vs) h = refl

-- Every field of the body other than `system` and `messages` is kept.
pub get-mark_anthropic :
    (k : Text) (json : Value)
    → text_eq (lit "system") k ≡ false
    → text_eq (lit "messages") k ≡ false
    → get k (mark_anthropic json) ≡ get k json
unfolding mark_anthropic
get-mark_anthropic k json hs hm =
    get-get_mut k (lit "messages") mark_messages (get_mut (lit "system") mark_content json) hm
    ∙ get-get_mut k (lit "system") mark_content json hs

mark_content_idem : (v : Value) → mark_content (mark_content v) ≡ mark_content v
unfolding mark_content
mark_content_idem null = refl
mark_content_idem (bool b) = refl
mark_content_idem (num n) = refl
mark_content_idem (str t) = refl
mark_content_idem (arr vs) = refl
mark_content_idem (obj fs) = refl

get_mut_idem :
    (k : Text) (f : Value → Value)
    → ((v : Value) → f (f v) ≡ f v)
    → (v : Value) → get_mut k f (get_mut k f v) ≡ get_mut k f v
unfolding get_mut
get_mut_idem k f h (obj fs) = ap obj (adjust_idem k f h fs)
get_mut_idem k f h null = refl
get_mut_idem k f h (bool b) = refl
get_mut_idem k f h (num n) = refl
get_mut_idem k f h (str t) = refl
get_mut_idem k f h (arr vs) = refl

get_mut_comm :
    (k j : Text) (f g : Value → Value)
    → text_eq k j ≡ false
    → (v : Value) → get_mut k f (get_mut j g v) ≡ get_mut j g (get_mut k f v)
unfolding get_mut
get_mut_comm k j f g h (obj fs) = ap obj (adjust_comm k j f g h fs)
get_mut_comm k j f g h null = refl
get_mut_comm k j f g h (bool b) = refl
get_mut_comm k j f g h (num n) = refl
get_mut_comm k j f g h (str t) = refl
get_mut_comm k j f g h (arr vs) = refl

length-adjust_item :
    (i : ℕ) (f : Value → Value) (vs : Items) → length_items (adjust_item i f vs) ≡ length_items vs
unfolding adjust_item
length-adjust_item i f nil = refl
length-adjust_item zero f (cons v vs) = refl
length-adjust_item (suc i) f (cons v vs) = ap suc (length-adjust_item i f vs)

adjust_item_idem :
    (i : ℕ) (f : Value → Value)
    → ((v : Value) → f (f v) ≡ f v)
    → (vs : Items) → adjust_item i f (adjust_item i f vs) ≡ adjust_item i f vs
unfolding adjust_item
adjust_item_idem i f h nil = refl
adjust_item_idem zero f h (cons v vs) = ap (λ u. cons u vs) (h v)
adjust_item_idem (suc i) f h (cons v vs) = ap (cons v) (adjust_item_idem i f h vs)

mark_messages_idem : (v : Value) → mark_messages (mark_messages v) ≡ mark_messages v
unfolding mark_messages
mark_messages_idem (arr vs) = ground (
  arith,
  length-adjust_item (length_items vs - 2) (get_mut (lit "content") mark_content) vs,
  adjust_item_idem (length_items vs - 2) (get_mut (lit "content") mark_content)
      (get_mut_idem (lit "content") mark_content mark_content_idem) vs,
)
mark_messages_idem null = refl
mark_messages_idem (bool b) = refl
mark_messages_idem (num n) = refl
mark_messages_idem (str t) = refl
mark_messages_idem (obj fs) = refl

-- A body that has its breakpoints gets no others: marking it again changes nothing.
pub mark_anthropic_idem :
    (json : Value) → mark_anthropic (mark_anthropic json) ≡ mark_anthropic json
unfolding mark_anthropic text_eq
mark_anthropic_idem json =
    ap (get_mut (lit "messages") mark_messages) (
      get_mut_comm (lit "system") (lit "messages") mark_content mark_messages refl
        (get_mut (lit "system") mark_content json))
    ∙ get_mut_idem (lit "messages") mark_messages mark_messages_idem
        (get_mut (lit "system") mark_content (get_mut (lit "system") mark_content json))
    ∙ ap (get_mut (lit "messages") mark_messages)
        (get_mut_idem (lit "system") mark_content mark_content_idem json)
