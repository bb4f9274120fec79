-- ===== src/Ledger/Diffs.antt =====
-- core/consensus/application.go: the map of a MidState points to the diffs of its elements, and a
-- write through it never panics.
use qday.Base.{
  ℕ, zero, suc, ◌≡◌, refl, sym, ap, ◌∙◌, ◌≢◌, inl, inr, Option, none, some, List, [], ◌∷◌, ◌++◌,
  ◌==◌, length, get_elem?, arith, Bool-cases, Option-cases,
}
use qday.Base.Options.{◌>>=◌, some-inj}
use qday.Ledger.{SiacoinElementDiff, MidState, insert, modify, place, blank_siacoin, write_siacoin}

-- Every element of the map has a diff that is about it.
abbrev pub IsLedger : MidState → Type 0
IsLedger ms =
    (id i : ℕ)
    → ms.elements id ≡ some i
    → (d : SiacoinElementDiff) × (get_elem? ms.sces i ≡ some d) × (d.siacoin_element.id ≡ id)

module _ {A : Type 0} where
  get_elem?-push : (xs : List A) (x : A) → get_elem? (xs ++ (x ∷ [])) (length xs) ≡ some x
  get_elem?-push [] x = refl
  get_elem?-push (y ∷ xs) x = get_elem?-push xs x

  get_elem?-length : (xs : List A) → get_elem? xs (length xs) ≡ none
  get_elem?-length [] = refl
  get_elem?-length (y ∷ xs) = get_elem?-length xs

  get_elem?-append :
      (xs ys : List A) (i : ℕ) {x : A} → get_elem? xs i ≡ some x → get_elem? (xs ++ ys) i ≡ some x
  get_elem?-append [] ys i e = cc
  get_elem?-append (y ∷ xs) ys zero e = e
  get_elem?-append (y ∷ xs) ys (suc i) e = get_elem?-append xs ys i e

  -- A write at an index that is there.
  modify-get_elem? :
      (xs : List A) (i : ℕ) (f : A → A) {x : A}
      → get_elem? xs i ≡ some x
      → (ys : List A) × (modify xs i f ≡ some ys)
        × (get_elem? ys i ≡ some (f x))
        × ((j : ℕ) → j ≢ i → get_elem? ys j ≡ get_elem? xs j)
  unfolding modify
  modify-get_elem? [] i f e = absurd cc
  modify-get_elem? (y ∷ xs) zero f {x} e =
      let same : y ≡ x = some-inj e in (f y ∷ xs, refl, ap (λ t. some (f t)) same, apart)
    where
      apart : (j : ℕ) → j ≢ 0 → get_elem? (f y ∷ xs) j ≡ get_elem? (y ∷ xs) j
      apart zero n = absurd (n refl)
      apart (suc j) n = refl
  modify-get_elem? (y ∷ xs) (suc i) f e =
      let (ys, m, at, others) = modify-get_elem? xs i f e in
      (y ∷ ys, ap (λ o. o >>= λ ys. some (y ∷ ys)) m, at, apart ys others)
    where
      apart :
          (ys : List A)
          → ((j : ℕ) → j ≢ i → get_elem? ys j ≡ get_elem? xs j)
          → (j : ℕ) → j ≢ suc i
          → get_elem? (y ∷ ys) j ≡ get_elem? (y ∷ xs) j
      apart ys others zero n = refl
      apart ys others (suc j) n = others j (λ e. n (ap suc e))

-- Where the diff of an element is found, or made.
record Placed (ms : MidState) (id : ℕ) : Type 0 where
  elements : ℕ → Option ℕ
  slots : List SiacoinElementDiff
  index : ℕ
  before : SiacoinElementDiff
  placed : place ms.elements ms.sces blank_siacoin id ≡ (elements, slots, index)
  here : get_elem? slots index ≡ some before
  mapped : elements id ≡ some index
  others :
      (k i : ℕ)
      → k ≢ id
      → elements k ≡ some i
      → (i ≢ index)
        × (ms.elements k ≡ some i)
        × (d : SiacoinElementDiff) × (get_elem? slots i ≡ some d)
        × (d.siacoin_element.id ≡ k)

-- An index is that of one element only.
index_of_one :
    (slots : List SiacoinElementDiff) (k id i j : ℕ) (d d' : SiacoinElementDiff)
    → k ≢ id
    → get_elem? slots i ≡ some d
    → d.siacoin_element.id ≡ id
    → get_elem? slots j ≡ some d'
    → d'.siacoin_element.id ≡ k
    → j ≢ i
index_of_one slots k id i j d d' n e a e' a' same =
    let one : d' ≡ d = some-inj (sym e' ∙ ap (get_elem? slots) same ∙ e) in
    n (sym a' ∙ ap (λ x. x.siacoin_element.id) one ∙ a)

insert_other : (m : ℕ → Option ℕ) (id v k : ℕ) → k ≢ id → insert m id v k ≡ m k
unfolding insert
insert_other m id v k n = ground arith

insert_same : (m : ℕ → Option ℕ) (id v : ℕ) → insert m id v id ≡ some v
unfolding insert
insert_same m id v = ground arith

place-Placed : (ms : MidState) (id : ℕ) → IsLedger ms → Placed ms id
unfolding place
place-Placed ms id l = elim (Option-cases (ms.elements id)) [
  | inr (i, e) ↦
      (let (d, at, about) = l id i e in
        record {
          elements = ms.elements;
          slots = ms.sces;
          index = i;
          before = d;
          placed = ground (arith, e);
          here = at;
          mapped = e;
          others = λ k j n f.
              (let (d', at', about') = l k j f in
                (index_of_one ms.sces k id i j d d' n at about at' about', f, d', at', about'));
        })
  | inl e ↦ record {
    elements = insert ms.elements id (length ms.sces);
    slots = ms.sces ++ (blank_siacoin ∷ []);
    index = length ms.sces;
    before = blank_siacoin;
    placed = ground (arith, e);
    here = get_elem?-push ms.sces blank_siacoin;
    mapped = insert_same ms.elements id (length ms.sces);
    others = λ k j n f.
        (let f' = sym (insert_other ms.elements id (length ms.sces) k n) ∙ f in
          let (d', at', about') = l k j f' in
          (
            past_end ms.sces j d' at',
            f',
            d',
            get_elem?-append ms.sces (blank_siacoin ∷ []) j at',
            about',
          ));
  }
]
  where
    past_end :
        (xs : List SiacoinElementDiff) (j : ℕ) (d : SiacoinElementDiff)
        → get_elem? xs j ≡ some d
        → j ≢ length xs
    past_end xs j d e same = let gone = sym e ∙ ap (get_elem? xs) same ∙ get_elem?-length xs in cc

-- What a write of the diff of one element does.
pub record Written (ms after : MidState) (id : ℕ) (f : SiacoinElementDiff → SiacoinElementDiff)
    : Type 0 where
  pub ledger : IsLedger after
  pub base : after.base ≡ ms.base
  pub spends : after.spends ≡ ms.spends
  pub qday_proved : after.qday_proved ≡ ms.qday_proved
  pub index : ℕ
  pub before : SiacoinElementDiff
  pub mapped : after.elements id ≡ some index
  pub diff : get_elem? after.sces index ≡ some (f before)

-- A write that keeps the diff about its element succeeds and keeps the ledger.
pub write_siacoin-Written :
    (ms : MidState) (id : ℕ) (f : SiacoinElementDiff → SiacoinElementDiff)
    → IsLedger ms
    → ((d : SiacoinElementDiff) → (f d).siacoin_element.id ≡ id)
    → (after : MidState) × (write_siacoin id f ms ≡ some after) × Written ms after id f
unfolding write_siacoin
write_siacoin-Written ms id f l about =
    let p = place-Placed ms id l in
    let (sces, m, at, apart) = modify-get_elem? p.slots p.index f p.here in
    (
      record ms { elements = p.elements; sces = sces },
      cc (p.placed, m),
      record {
        ledger = kept p sces at apart;
        base = refl;
        spends = refl;
        qday_proved = refl;
        index = p.index;
        before = p.before;
        mapped = p.mapped;
        diff = at;
      },
    )
  where
    kept :
        (p : Placed ms id) (sces : List SiacoinElementDiff)
        → get_elem? sces p.index ≡ some (f p.before)
        → ((j : ℕ) → j ≢ p.index → get_elem? sces j ≡ get_elem? p.slots j)
        → IsLedger (record ms { elements = p.elements; sces = sces })
    kept p sces at apart k j e = elim (Bool-cases (k == id)) [
      | inl same ↦
          (let k_id : k ≡ id = ground arith in
            let j_index : p.index ≡ j = some-inj (sym p.mapped ∙ ap p.elements (sym k_id) ∙ e) in
            (f p.before, ap (get_elem? sces) (sym j_index) ∙ at, about p.before ∙ sym k_id))
      | inr other ↦
          (let (n, _, d, at', about') = p.others k j (ground arith) e in
            (d, apart j n ∙ at', about'))
    ]
