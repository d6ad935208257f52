-- ===== src/Applier/Terraform/Samples.antt =====
-- A small hclwrite for the tests: files and blocks with numbers, and a heap of what they hold.
use iamzero.Prelude.{
  ℕ, ◌+◌, String, ◌≡◌, ◌≢◌, refl, ap, ◌∙◌, Bool, true, ◌&&◌, inl, Option, none, some, List, [], ◌∷◌,
  ◌++◌, ◌==◌, eqb, if◌then◌else◌, All, arith, eq_refl, eq_iff, map, Bool-cases, inr, find_first,
}
use iamzero.Prelude.Text.{◌<>◌, split}
use iamzero.Prelude.Words.{join}
use iamzero.Applier.Terraform.{Hcl, Body, file_body, block_body, ReadResult}
use iamzero.Applier.Terraform.Addresses.Written.{written}
use iamzero.Applier.Terraform.Frames.{HclLaws}

-- The labels, between dots.
pub record SampleBlock : Type 0 where
  pub number : ℕ
  pub type_name : String
  pub address : String

abbrev pub same_block : SampleBlock → SampleBlock → Bool
same_block x y = eqb x.number y.number && x.type_name == y.type_name && x.address == y.address

same_block→path : (x y : SampleBlock) → same_block x y ≡ true → x ≡ y
same_block→path x y h = ground (arith, eq_iff x.type_name y.type_name, eq_iff x.address y.address)

same_block_refl : (x : SampleBlock) → same_block x x ≡ true
same_block_refl x = ground (arith, eq_refl x.type_name, eq_refl x.address)

pub record SampleHeap : Type 0 where
  pub next : ℕ
  pub in_file : ℕ → List SampleBlock
  pub in_block : ℕ → List SampleBlock
  pub texts : ℕ → String → Option String

abbrev pub erase : SampleBlock → List SampleBlock → List SampleBlock
erase x [] = []
erase x (y ∷ ys) = if same_block y x then ys else y ∷ erase x ys

erase-append :
    (x : SampleBlock) (xs ys : List SampleBlock)
    → All (λ y. y ≢ x) xs
    → erase x (xs ++ x ∷ ys) ≡ xs ++ ys
erase-append x [] ys h = rw (same_block_refl x) refl
erase-append x (y ∷ xs) ys h = elim (Bool-cases (same_block y x)) [
  | inl e ↦ absurd (h.0 (same_block→path y x e))
  | inr e ↦ rw e (ap (λ zs. y ∷ zs) (erase-append x xs ys h.1))
]

abbrev pub update : {A : Type 0} → (ℕ → A) → ℕ → A → ℕ → A
update f n a m = if eqb n m then a else f m

update-same : {A : Type 0} (f : ℕ → A) (n : ℕ) (a : A) → update f n a n ≡ a
update-same f n a = ground arith

abbrev pub inside : Body ℕ SampleBlock → SampleHeap → List SampleBlock
inside (file_body f) h = h.in_file f
inside (block_body b) h = h.in_block b.number

abbrev pub set_inside : Body ℕ SampleBlock → List SampleBlock → SampleHeap → SampleHeap
set_inside (file_body f) bs h = record h { in_file = update in_file f bs }
  where
    open h use {in_file}
set_inside (block_body b) bs h = record h { in_block = update in_block b.number bs }
  where
    open h use {in_block}

-- Attributes of files are not kept.
abbrev pub set_text : Body ℕ SampleBlock → String → String → SampleHeap → SampleHeap
set_text (file_body f) name text h = h
set_text (block_body b) name text h = record h {
  texts = λ n m. if eqb b.number n && name == m then some text else h.texts n m;
}

abbrev pub text_of : Body ℕ SampleBlock → String → SampleHeap → Option String
text_of (file_body f) name h = none
text_of (block_body b) name h = h.texts b.number name

set_text-inside :
    (body : Body ℕ SampleBlock) (name text : String) (h : SampleHeap) (b : SampleBlock)
    → (set_text body name text h).in_block b.number ≡ h.in_block b.number
set_text-inside (file_body f) name text h b = refl
set_text-inside (block_body c) name text h b = refl

-- A file of `module` blocks reads as their labels between commas.
abbrev pub sample_hcl : (String → ReadResult) → Hcl SampleHeap ℕ SampleBlock
sample_hcl disk = record {
  new_empty_file = λ h. (h.next, record h { next = h.next + 1 });
  parse_config = λ src path h. inl (
    h.next,
    record h {
      next = h.next + 1;
      in_file =
          update h.in_file h.next
            (record { number = h.next; type_name = "module"; address = src } ∷ []);
    },
  );
  blocks = inside;
  first_matching_block = λ body type_name ls h.
      find_first (λ b. b.type_name == type_name && b.address == join "." ls) (inside body h);
  block_type = λ b. b.type_name;
  labels = λ b. split b'.' b.address;
  attribute_text = text_of;
  set_attribute_raw = set_text;
  set_attribute_string = λ body name text h. set_text body name ("\"" <> (text <> "\"")) h;
  set_attribute_traversal = λ body name path h. set_text body name (written path) h;
  new_block = λ type_name ls h. (
    record { number = h.next; type_name = type_name; address = join "." ls },
    record h { next = h.next + 1 },
  );
  append_block = λ body b h. set_inside body (inside body h ++ b ∷ []) h;
  append_newline = λ body h. h;
  remove_block = λ body b h. set_inside body (erase b (inside body h)) h;
  formatted = λ f h. join "," (map (λ b. b.address) (h.in_file f));
  read_file = disk;
  clean = λ path. path;
  dir = λ path. "app";
  join_path = join "/";
  marshal_strings = λ ss. "[" <> (join "," ss <> "]");
}

abbrev pub Live : SampleBlock → SampleHeap → Type 0
Live b h = Unit {0}

pub sample_laws : (disk : String → ReadResult) → HclLaws (sample_hcl disk) Live
sample_laws disk = record {
  new_empty_file-Same = λ b h l. (tt, refl);
  parse_config-Same = λ b h src path f h' e l. (tt, cc);
  new_block-Same = λ b h t ls l. (tt, refl);
  block_type-new_block = λ t ls h. refl;
  set_attribute_raw-Same = λ b body name text h l. (tt, set_text-inside body name text h b);
  set_attribute_string-Same = λ b body name text h l. (tt, set_text-inside body name _ h b);
  set_attribute_traversal-Same = λ b body name path h l. (tt, set_text-inside body name _ h b);
  append_newline-Same = λ b body h l. (tt, refl);
  append_block-Same = λ b f new h l. (tt, refl);
  append_block_lem = λ b new h l. (tt, update-same h.in_block b.number _);
  remove_block_lem = λ b old xs ys h l e d.
      (tt, update-same h.in_block b.number _ ∙ ap (erase old) e ∙ erase-append old xs ys d);
}

pub texts-set :
    (disk : String → ReadResult) (b : SampleBlock) (name text : String) (h : SampleHeap)
    → (sample_hcl disk).attribute_text
        (block_body b)
        name
        ((sample_hcl disk).set_attribute_raw (block_body b) name text h)
      ≡ some text
texts-set disk b name text h = ground (arith, eq_refl name)
