-- ===== src/Providers/Disjoint.antt =====
-- Which adapter handles a response.
use rastir.Base.{
  ℕ, ◌+◌, ◌≤◌, String, ◌≡◌, refl, sym, ap, ◌∙◌, subst, Bool, true, false, ◌||◌, Option, none, List,
  [], ◌∷◌, arith, eq_iff, str_eq, Bool-cases, inl, inr, if◌then◌else◌,
}
use mathlib.Core.List.{Permᴰ}
use rastir.Adapters.{Adapter, AdapterResult, or_else, offer, extract}
use rastir.Objects.{Object, class_name, one_of_names}
use rastir.Providers.{is_class}
use rastir.Providers.ChatCompletions.{open_ai, groq, mistral}
use rastir.Providers.OtherFormats.{anthropic, gemini, cohere, is_gemini}

-- the adapters that go by the class of a response and exclude each other: all but Azure's, which takes
-- responses of OpenAI's classes and is asked before OpenAI's
abbrev pub by_class : List (Adapter Object)
by_class = groq ∷ open_ai ∷ anthropic ∷ gemini ∷ cohere ∷ mistral ∷ []

-- how many adapters handle the object
unfoldable pub handlers : List (Adapter Object) → Object → ℕ
handlers [] x = 0
handlers (a ∷ l) x = let rest = handlers l x in if a.can_handle x then rest + 1 else rest

-- a number for each class that the adapters know
abbrev class_number : String → ℕ
class_number n =
    if str_eq n "ChatCompletion" || str_eq n "Completion"
    then 1
    else (if str_eq n "Message"
        then 2
        else (if str_eq n "GenerateContentResponse"
            then 3
            else (if str_eq n "ChatResponse" || str_eq n "NonStreamedChatResponse"
                then 4
                else (if str_eq n "ChatCompletionResponse" then 5 else 0))))

same_number : (a b : String) → str_eq a b ≡ true → class_number b ≡ class_number a
same_number a b h = sym (ap class_number ((eq_iff a b).0 h))

same_number_back : (a b : String) → str_eq a b ≡ true → class_number a ≡ class_number b
same_number_back a b h = ap class_number ((eq_iff a b).0 h)

handlers-by_class : (x : Object) → handlers by_class x ≤ 1
unfolding handlers is_class one_of_names is_gemini
handlers-by_class x = ground (
  arith,
  same_number "ChatCompletion" (class_name x),
  same_number "Completion" (class_name x),
  same_number "Message" (class_name x),
  same_number_back (class_name x) "GenerateContentResponse",
  same_number "ChatResponse" (class_name x),
  same_number "NonStreamedChatResponse" (class_name x),
  same_number "ChatCompletionResponse" (class_name x),
)

abbrev count_if : Bool → ℕ → ℕ
count_if true n = n + 1
count_if false n = n

at_most_rest : (p : Bool) (n : ℕ) → count_if p n ≤ 1 → n ≤ 1
at_most_rest true n h = omega (arith, h)
at_most_rest false n h = h

count_swap : (p q : Bool) (n : ℕ) → count_if p (count_if q n) ≡ count_if q (count_if p n)
count_swap true true n = refl
count_swap true false n = refl
count_swap false true n = refl
count_swap false false n = refl

handlers-cons :
    (a : Adapter Object) (l : List (Adapter Object)) (x : Object)
    → handlers (a ∷ l) x ≡ count_if (a.can_handle x) (handlers l x)
unfolding handlers
handlers-cons a l x = elim (Bool-cases (a.can_handle x)) [ inl e ↦ rw e refl | inr e ↦ rw e refl ]

offer_of_not :
    (a : Adapter Object) (x : Object) → a.can_handle x ≡ false → offer "provider" x a ≡ none
offer_of_not a x h = ground (arith, h)

handlers-Perm :
    (l l' : List (Adapter Object)) (x : Object) → Permᴰ l l' → handlers l x ≡ handlers l' x
unfolding handlers
handlers-Perm l l' x Permᴰ.nil = refl
handlers-Perm l l' x (Permᴰ.cons {a = a} {b = b} {l₁ = t} {l₂ = t'} e d) =
    handlers-cons a t x
    ∙ ap (λ (c : Adapter Object). count_if (c.can_handle x) (handlers t x)) e
    ∙ ap (count_if (b.can_handle x)) (handlers-Perm t t' x d)
    ∙ sym (handlers-cons b t' x)
handlers-Perm l l' x (Permᴰ.swap {a = a} {b = b} {a' = a'} {b' = b'} {l = t} e k) =
    handlers-cons a (b ∷ t) x
    ∙ ap (count_if (a.can_handle x)) (handlers-cons b t x)
    ∙ count_swap (a.can_handle x) (b.can_handle x) (handlers t x)
    ∙ ap
        (λ (c : Adapter Object).
          count_if (c.can_handle x) (count_if (a.can_handle x) (handlers t x)))
        k
    ∙ ap
        (λ (c : Adapter Object).
          count_if (a'.can_handle x) (count_if (c.can_handle x) (handlers t x)))
        e
    ∙ ap (count_if (a'.can_handle x)) (sym (handlers-cons b' t x))
    ∙ sym (handlers-cons a' (b' ∷ t) x)
handlers-Perm l l' x (Permᴰ.trans {l₂ = m} d d') = handlers-Perm l m x d ∙ handlers-Perm m l' x d'

abbrev offers : Adapter Object → Object → Option (AdapterResult Object)
offers a x = offer "provider" x a

-- Of two adapters, one of which does not handle the object, the order does not matter.
offer_swap :
    (a b : Adapter Object) (x : Object) (rest : Option (AdapterResult Object)) (n : ℕ)
    → count_if (a.can_handle x) (count_if (b.can_handle x) n) ≤ 1
    → or_else (offers a x) (or_else (offers b x) rest)
      ≡ or_else (offers b x) (or_else (offers a x) rest)
offer_swap a b x rest n h = elim (Bool-cases (a.can_handle x)) [
  | inl p ↦ elim (Bool-cases (b.can_handle x)) [
    | inl q ↦ absurd (ground (arith, h, p, q))
    | inr q ↦ ground (arith, offer_of_not b x q)
  ]
  | inr p ↦ ground (arith, offer_of_not a x p)
]

extract-Perm :
    (l l' : List (Adapter Object)) (x : Object)
    → Permᴰ l l'
    → handlers l x ≤ 1
    → extract "provider" l x ≡ extract "provider" l' x
unfolding extract
extract-Perm l l' x Permᴰ.nil h = refl
extract-Perm l l' x (Permᴰ.cons {a = a} {b = b} {l₁ = t} {l₂ = t'} e d) h =
    ap (λ (c : Adapter Object). or_else (offers c x) (extract "provider" t x)) e
    ∙ ap (or_else (offers b x)) (
        extract-Perm t t' x d (
          at_most_rest (a.can_handle x) (handlers t x)
            (subst (λ n. n ≤ 1) (handlers-cons a t x) h)))
extract-Perm l l' x (Permᴰ.swap {a = a} {b = b} {a' = a'} {b' = b'} {l = t} e k) h =
    offer_swap a b x (extract "provider" t x) (handlers t x) (
      subst (λ n. n ≤ 1)
        (handlers-cons a (b ∷ t) x ∙ ap (count_if (a.can_handle x)) (handlers-cons b t x)) h)
    ∙ ap
        (λ (c : Adapter Object).
          or_else (offers c x) (or_else (offers a x) (extract "provider" t x)))
        k
    ∙ ap
        (λ (c : Adapter Object).
          or_else (offers a' x) (or_else (offers c x) (extract "provider" t x)))
        e
extract-Perm l l' x (Permᴰ.trans {l₂ = m} d d') h =
    extract-Perm l m x d h ∙ extract-Perm m l' x d' (subst (λ n. n ≤ 1) (handlers-Perm l m x d) h)

-- Of the adapters of Groq, OpenAI, Anthropic, Gemini, Cohere and Mistral, at most one handles an object,
-- and in whatever order these six have been registered, the result that they extract from it is the
-- same. Azure's, which also goes by the class and handles responses that OpenAI's handles too, is not
-- among them.
pub extract-by_class :
    (l : List (Adapter Object)) (x : Object)
    → Permᴰ by_class l
    → (handlers l x ≤ 1) × (extract "provider" l x ≡ extract "provider" by_class x)
extract-by_class l x d = (
  subst (λ n. n ≤ 1) (handlers-Perm by_class l x d) (handlers-by_class x),
  sym (extract-Perm by_class l x d (handlers-by_class x)),
)
