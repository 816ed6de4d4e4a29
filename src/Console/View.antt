-- ===== src/Console/View.antt =====
-- What the pages of the console draw, with the events that a click makes, which every page's `View`
-- uses. Styling, icons and widths are left out.
use mr1v.Base.{
  ◌≡◌, refl, Bool, true, false, not, Option, none, some, List, [], ◌∷◌, ◌++◌, map, String, inl, inr,
  All, All-append, In, sym, subst, ap, if◌then◌else◌,
}
use mr1v.Js.Text.{Text}
use mr1v.Console.Fetch.{Listing}

-- A piece of a cell or of a tool bar: texts, a tag with its colour, a picture or its stand-in, and
-- what can be clicked. A `stuck` button is disabled; `confirm` asks before its event; a switch
-- hands its new position to its event, and a box for a search its text, whenever it is typed in
-- and when it is sent.
pub data Piece (E : Type 0) : Type 0 where
  words faint code : Text → Piece E
  titled : (title : Text) → Text → Piece E
  tag : (color : String) → Text → Piece E
  bare_tag : Text → Piece E
  avatar : Option String → Piece E
  button : String → E → Piece E
  link : Text → E → Piece E
  stuck : String → Piece E
  confirm : (question label : String) → E → Piece E
  switch : Bool → (Bool → E) → Piece E
  search : (placeholder : String) (value : Text) (typed sent : Text → E) → Piece E

abbrev pub piece_offers : {E : Type 0} → Piece E → List E
piece_offers (button l e) = e ∷ []
piece_offers (link l e) = e ∷ []
piece_offers (confirm q l e) = e ∷ []
piece_offers (switch b f) = f (not b) ∷ []
piece_offers (search h v typed sent) = sent v ∷ []
piece_offers _ = []

pub record Column (A E : Type 0) : Type 0 where
  pub title : String
  pub cell : A → List (Piece E)

pub record Table (E : Type 0) : Type 0 where
  pub titles : List String
  pub cells : List (List (List (Piece E)))
  pub loading : Bool

-- An item of a form: its name, its label, and whether it must be filled in.
pub record Item : Type 0 where
  pub name : String
  pub label : String
  pub required : Bool

abbrev pub item : String → String → Bool → Item
item n l r = record { name = n; label = l; required = r }

-- A dialog, with the labels and the events of its two buttons. While it is busy, its first button
-- spins and takes no click.
pub record Dialog (E : Type 0) : Type 0 where
  pub title : Text
  pub is_open : Bool
  pub is_busy : Bool
  pub ok_label : String
  pub on_ok : E
  pub on_cancel : E
  pub items : List Item

module _ {A B : Type 0} where
  abbrev pub gather : (A → List B) → List A → List B
  gather f [] = []
  gather f (a ∷ rest) = f a ++ gather f rest

  gather-All_cons :
      (P : B → Type 0) (f : A → List B) (a : A) (rest : List A)
      → ((x : A) → In x (a ∷ rest) → All P (f x))
      → All P (gather f rest)
      → All P (gather f (a ∷ rest))
  gather-All_cons P f a rest h later = All-append P (f a) (gather f rest) (h a (inl refl)) later

  -- What holds of all that each element gives holds of all that is gathered.
  pub gather-All :
      (P : B → Type 0) (f : A → List B) (xs : List A)
      → ((x : A) → In x xs → All P (f x))
      → All P (gather f xs)
  gather-All P f [] h = tt
  gather-All P f (a ∷ rest) h =
      gather-All_cons P f a rest h (gather-All P f rest (λ x i. h x (inr i)))

module _ {B : Type 0} where
  pub In-append_left : (x : B) (xs ys : List B) → In x xs → In x (xs ++ ys)
  In-append_left x [] ys i = absurd i
  In-append_left x (z ∷ xs) ys (inl e) = inl e
  In-append_left x (z ∷ xs) ys (inr i) = inr (In-append_left x xs ys i)

  pub In-append_right : (x : B) (xs ys : List B) → In x ys → In x (xs ++ ys)
  In-append_right x [] ys i = i
  In-append_right x (z ∷ xs) ys i = inr (In-append_right x xs ys i)

  pub All-at : (P : B → Type 0) (x : B) (xs : List B) → All P xs → In x xs → P x
  All-at P x [] h i = absurd i
  All-at P x (y ∷ xs) h (inl e) = subst P (sym e) h.0
  All-at P x (y ∷ xs) h (inr i) = All-at P x xs h.1 i

-- What is gathered from an element of the list.
pub In-gather :
    {A B : Type 0} (f : A → List B) (a : A) (b : B) (xs : List A)
    → In a xs
    → In b (f a)
    → In b (gather f xs)
In-gather f a b [] i j = absurd i
In-gather f a b (x ∷ xs) (inl e) j =
    In-append_left b (f x) (gather f xs) (subst (λ y. In b (f y)) e j)
In-gather f a b (x ∷ xs) (inr i) j = In-append_right b (f x) (gather f xs) (In-gather f a b xs i j)

-- The events that a row of cells offers, and a whole table.
abbrev pub row_offers : {E : Type 0} → List (List (Piece E)) → List E
row_offers cells = gather (gather piece_offers) cells

abbrev pub table_offers : {E : Type 0} → Table E → List E
table_offers t = gather row_offers t.cells

pub gather-map :
    {A B C : Type 0} (f : B → List C) (g : A → B) (xs : List A)
    → gather f (map g xs) ≡ gather (λ x. f (g x)) xs
gather-map f g [] = refl
gather-map f g (x ∷ xs) = ap (λ ys. f (g x) ++ ys) (gather-map f g xs)

module _ {A E : Type 0} (columns : List (Column A E)) where
  abbrev pub row_cells : A → List (List (Piece E))
  row_cells a = map (λ (c : Column A E). c.cell a) columns

  unfoldable pub table : Listing A → Table E
  table l = record {
    titles = map (λ (c : Column A E). c.title) columns;
    cells = map row_cells l.rows;
    loading = l.loading;
  }

  -- A table offers what its rows offer.
  pub table_offers-All :
      (P : E → Type 0) (l : Listing A)
      → ((a : A) → In a l.rows → All P (row_offers (row_cells a)))
      → All P (table_offers (table l))
  unfolding table
  table_offers-All P l h =
      rw (gather-map row_offers row_cells l.rows)
        (gather-All P (λ a. row_offers (row_cells a)) l.rows h)

  pub In-table_offers :
      (e : E) (l : Listing A) (a : A)
      → In a l.rows
      → In e (row_offers (row_cells a))
      → In e (table_offers (table l))
  unfolding table
  In-table_offers e l a i j =
      rw (gather-map row_offers row_cells l.rows)
        (In-gather (λ a. row_offers (row_cells a)) a e l.rows i j)

abbrev pub plain : {A E : Type 0} → String → (A → Text) → Column A E
plain title f = record { title = title; cell = λ a. words (f a) ∷ [] }

-- A page: its buttons, its table and its dialogs, and all that it offers.
pub record Drawn (E : Type 0) : Type 0 where
  pub tools : List (Piece E)
  pub main : Table E
  pub dialogs : List (Dialog E)

abbrev pub dialog_offers : {E : Type 0} → Dialog E → List E
dialog_offers d =
    if d.is_open then if d.is_busy then d.on_cancel ∷ [] else d.on_ok ∷ d.on_cancel ∷ [] else []

abbrev pub drawn_offers : {E : Type 0} → Drawn E → List E
drawn_offers d =
    gather piece_offers d.tools ++ (table_offers d.main ++ gather dialog_offers d.dialogs)

abbrev pub is_some : {A : Type 0} → Option A → Bool
is_some none = false
is_some (some a) = true
