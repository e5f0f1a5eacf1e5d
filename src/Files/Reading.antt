-- ===== src/Files/Reading.antt =====
-- read of a file: the bytes of the file from the offset on, and the offset after them.
use simplified_os_kernel.Prelude.{
  ℕ, ◌+◌, ◌-◌, ◌≤◌, ◌<◌, ◌≡◌, refl, sym, ap, ◌∙◌, arith, Bool, true, false, ◌||◌, ◌==◌, Option,
  none, some, some_inj, ap₂, not, get_elem?, List, [], ◌∷◌, ◌++◌, length, min, subst, if◌then◌else◌,
  ne→==,
}
use simplified_os_kernel.Prelude.Words.{u32_mod, sub32, add32}
use simplified_os_kernel.Shared.Contents.{Always}
use simplified_os_kernel.BlockIo.{got, read_all, slice}
use simplified_os_kernel.BlockIo.Slice.{content, length-slice}
use simplified_os_kernel.BlockIo.ReadAll.{read_all_lem}
use simplified_os_kernel.Handles.{Handles, pointer, is_bad, clear, hold, set_content}
use simplified_os_kernel.Handles.Laws.{clear-Good, set_content-Good, valid_number}
use simplified_os_kernel.Handles.Contents.{clear-Always}
use simplified_os_kernel.Handles.Local.{
  look, same_cells, local_cells, local_end, Becomes, Local, copied_pointer, changed,
}
use simplified_os_kernel.Files.{
  Node, is_dir, FileDescriptor, Files, Outcome, fills, finish, bad_range, read_done, read_count,
  read_file, read_object, read_local, dir_node, get_pipe, sys_read,
}
use simplified_os_kernel.Files.Table.{Within, Sound, IsOk, Ended}

-- What a read asks for is what the file has left, up to `count`.
read_count_lem :
    (count : ℕ) (d : FileDescriptor) (node : Node)
    → Within d.offset node
    → read_count count d node ≡ min count (node.device.size_in_bytes - d.offset)
unfolding read_count
read_count_lem count d node (pos, inside, small) = rw left (ground arith)
  where
    left : sub32 node.device.size_in_bytes d.offset ≡ node.device.size_in_bytes - d.offset
    left = omega (arith, inside, small)

all_read :
    (n offset : ℕ) (node : Node)
    → Within offset node
    → n ≤ node.device.size_in_bytes - offset
    → read_all node.device offset n ≡ some (got (slice (content node.device) offset n))
all_read n offset node (pos, inside, small) le =
    read_all_lem node.device offset n pos inside
    ∙ ap (λ m. some (got (slice (content node.device) offset m))) (ground arith)

-- The descriptor after `n` bytes were read.
abbrev pub advanced : FileDescriptor → ℕ → FileDescriptor
advanced d n = record d { offset = d.offset + n }

file_step :
    (count : ℕ) (h : Handles FileDescriptor) (l p n : ℕ) (d : FileDescriptor) (node : Node)
    (st : Files)
    → Within d.offset node
    → n ≡ min count (node.device.size_in_bytes - d.offset)
    → read_file count h l p d st (some node)
      ≡ finish
          (fills (slice (content node.device) d.offset n) n)
          st
          (clear (set_content h p (advanced d n)) l)
unfolding read_file read_done clear
file_step count h l p n d node st w e =
    rw (read_count_lem count d node w, ← e, no_wrap)
      (ap (read_done h l p (advanced d n) st) (all_read n d.offset node w le) ∙ done)
  where
    le : n ≤ node.device.size_in_bytes - d.offset
    le = ground (arith, e)

    no_wrap : add32 d.offset n ≡ d.offset + n
    no_wrap = omega (arith, le, w.1, w.2)

    bytes : List ℕ
    bytes = slice (content node.device) d.offset n

    done :
        read_done h l p (advanced d n) st (some (got bytes))
        ≡ finish (fills bytes n) st (clear (set_content h p (advanced d n)) l)
    done =
        ap (λ m. finish (fills bytes m) st (clear (set_content h p (advanced d n)) l))
          (length-slice (content node.device) d.offset n)

pub else_branch : {A : Type 0} (b : Bool) (x y : A) → b ≡ false → (if b then x else y) ≡ y
else_branch b x y e = rw e refl

-- A readable descriptor of a file goes on to the file.
object_step :
    (pid count : ℕ) (h : Handles FileDescriptor) (l p : ℕ) (d : FileDescriptor) (node : Node)
    (st : Files)
    → d.vnode ≡ some node
    → d.readable ≡ true
    → d.pipe ≡ none
    → is_dir node ≡ false
    → read_object pid count h l st (some (p, d)) ≡ read_file count h l p d st (some node)
unfolding read_object
object_step pid count h l p d node st v r q f =
    else_branch (not d.readable || dir_node d.vnode) _ _ (ap₂ (λ a b. not a || dir_node b) r v ∙ f)
    ∙ ap
        (λ o. elim o as (λ _. Option (Outcome × Files)) [
          | none ↦ read_file count h l p d st d.vnode
          | some q' ↦ get_pipe pid h q' st (get_elem? st.pipes q')
        ])
        q
    ∙ ap (read_file count h l p d st) v

Sound-file :
    (pipes_n p : ℕ) (d : FileDescriptor) (node : Node)
    → d.vnode ≡ some node
    → Sound pipes_n p d
    → Within d.offset node × (d.pipe ≡ none)
Sound-file pipes_n p d node v s = rw v at s

advanced-Sound :
    (pipes_n p n : ℕ) (d : FileDescriptor) (node : Node)
    → d.vnode ≡ some node
    → Within d.offset node
    → d.pipe ≡ none
    → n ≤ node.device.size_in_bytes - d.offset
    → Sound pipes_n p (advanced d n)
advanced-Sound pipes_n p n d node v w q le = rw (v, q) ((w.0, omega (arith, le, w.1), w.2), refl)

guards :
    (pid base fd buffer count p : ℕ) (st : Files)
    → fd < 10
    → pointer st.handles (base + fd) ≡ some p
    → 0 < count
    → bad_range buffer count ≡ false
    → sys_read pid base fd buffer count st
      ≡ read_local pid count (length st.handles.cells) st (hold st.handles (base + fd))
unfolding sys_read
guards pid base fd buffer count p st small pointed some_n range =
    else_branch (count == 0) _ _ (ne→== count 0 (omega arith))
    ∙ else_branch (is_bad st.handles base 10 fd || bad_range buffer count) _ _
        (ap₂ (λ a b. a || b) (valid_number st.handles base 10 fd p small pointed) range)

run_read :
    (pid base fd count p n : ℕ) (d : FileDescriptor) (node : Node) (st : Files)
    (x : Local (Sound (length st.pipes)) st.handles (base + fd) p)
    → d ≡ x.s
    → d.vnode ≡ some node
    → d.readable ≡ true
    → is_dir node ≡ false
    → Within d.offset node
    → d.pipe ≡ none
    → n ≡ min count (node.device.size_in_bytes - d.offset)
    → read_local pid count (length st.handles.cells) st (hold st.handles (base + fd))
      ≡ finish
          (fills (slice (content node.device) d.offset n) n)
          st
          (clear (set_content x.l p (advanced d n)) (length st.handles.cells))
unfolding read_local
run_read pid base fd count p n d node st x e v r f w q m =
    ap (read_local pid count (length st.handles.cells) st) x.held
    ∙ ap (read_object pid count x.l (length st.handles.cells) st)
        (x.reached ∙ ap (λ t. some (p, t)) (sym e))
    ∙ object_step pid count x.l (length st.handles.cells) p d node st v r q f
    ∙ file_step count x.l (length st.handles.cells) p n d node st w m

pub read_lem :
    (pid base fd buffer count p : ℕ) (d : FileDescriptor) (node : Node) (st : Files)
    → IsOk st
    → base + 10 ≤ length st.handles.cells
    → length st.handles.cells + 3 < u32_mod
    → fd < 10
    → pointer st.handles (base + fd) ≡ some p
    → look st.handles p ≡ some d
    → d.vnode ≡ some node
    → d.readable ≡ true
    → is_dir node ≡ false
    → 0 < count
    → bad_range buffer count ≡ false
    → (n : ℕ) × (st' : Files) × (n ≡ min count (node.device.size_in_bytes - d.offset))
      × (sys_read pid base fd buffer count st
          ≡ some (fills (slice (content node.device) d.offset n) n, st'))
      × Ended st st'
      × (st'.handles.cells ≡ st.handles.cells ++ (none ∷ []))
      × (st'.pipes ≡ st.pipes)
      × (st'.terminal ≡ st.terminal)
      × Always (Becomes (Sound (length st.pipes)) p (advanced d n) st.handles) st'.handles.store
read_lem pid base fd buffer count p d node st ok room few small pointed seen v r f some_n range =
    let x =
      copied_pointer (Sound (length st.pipes)) st.handles (base + fd) p ok.good ok.sound
        (omega arith) few pointed in
    let e : d ≡ x.s = some_inj d x.s (sym seen ∙ x.was.1) in
    let (w, q) = Sound-file _ p d node v (subst (Sound (length st.pipes) p) (sym e) x.was.0) in
    let n = min count (node.device.size_in_bytes - d.offset) in
    let sound = advanced-Sound (length st.pipes) p n d node v w q (ground arith) in
    let (h, e', g, cs) =
      clear-Good (set_content x.l p (advanced d n)) (length st.handles.cells)
        (set_content-Good x.l p (advanced d n) x.good)
        (omega (arith, x.longer, ap length (same_cells x.l p (advanced d n)))) in
    let al =
      clear-Always (Becomes (Sound (length st.pipes)) p (advanced d n) st.handles) _ h _ e'
        (changed (Sound (length st.pipes)) st.handles (base + fd) p x (advanced d n) sound) in
    (
      n,
      record st { handles = h },
      refl,
      guards pid base fd buffer count p st small pointed some_n range
          ∙ run_read pid base fd count p n d node st x e v r f w q refl
          ∙ ap (finish (fills (slice (content node.device) d.offset n) n) st) e',
      record {
        ok = record { good = g; sound = λ q' c i. (al q' c i).0 };
        cells = local_end st.handles x.l h p (advanced d n) x.longer cs;
      },
      local_cells st.handles (set_content x.l p (advanced d n)) h (pointer st.handles (base + fd))
          (same_cells x.l p (advanced d n) ∙ x.added) cs,
      refl,
      refl,
      al,
    )
