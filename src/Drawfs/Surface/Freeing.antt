-- ===== src/Drawfs/Surface/Freeing.antt =====
-- What `drawfs_surfaces_free_all` of drawfs_surface.c leaves of a session's surfaces.
use awase.Base.{ℕ, ◌+◌, ◌≡◌, refl, List, [], ◌∷◌, arith, Option, some, none, ◌==◌, if◌then◌else◌}
use awase.Drawfs.Session.{Surface, State, Kernel, VmCall, references, deallocates}
use awase.Drawfs.Surface.{detach, release_vmobj, free_list, surfaces_free_all}

-- How often an object is given back in a list of calls, and by how many surfaces it is carried.
abbrev pub given_back : ℕ → List VmCall → ℕ
given_back obj [] = 0
given_back obj (references o ∷ calls) = given_back obj calls
given_back obj (deallocates o ∷ calls) = (if o == obj then 1 else 0) + given_back obj calls

abbrev holds : ℕ → Option ℕ → ℕ
holds obj none = 0
holds obj (some o) = if o == obj then 1 else 0

abbrev pub carriers : ℕ → List Surface → ℕ
carriers obj [] = 0
carriers obj (sf ∷ rest) = holds obj sf.vmobj + carriers obj rest

release_vmobj-given_back :
    (obj : ℕ) (k : Kernel) (o : Option ℕ)
    → given_back obj (release_vmobj k o).vm_calls ≡ holds obj o + given_back obj k.vm_calls
unfolding release_vmobj
release_vmobj-given_back obj k none = omega arith
release_vmobj-given_back obj k (some o) = refl

free_list-frees :
    (xs : List Surface) (st : State) (obj : ℕ)
    → st.session.surfaces ≡ xs
    → let st' = free_list st xs in
      (st'.session.surfaces ≡ [])
      × (st'.session.surfaces_count ≡ 0)
      × (st'.session.surfaces_bytes ≡ 0)
      × (given_back obj st'.kernel.vm_calls ≡ carriers obj xs + given_back obj st.kernel.vm_calls)
unfolding free_list detach
free_list-frees [] st obj e = (e, refl, refl, omega arith)
free_list-frees (sf ∷ rest) st obj e =
    let st1 : State = record {
      session = detach st.session sf rest;
      kernel = release_vmobj st.kernel sf.vmobj;
    } in
    let (a, b, c, d) = free_list-frees rest st1 obj refl in
    (a, b, c, omega (arith, d, release_vmobj-given_back obj st.kernel sf.vmobj))

-- Freeing all surfaces leaves an empty list and accounts of zero, and each backing object is given
-- back once more for each surface that carries it.
pub surfaces_free_all-frees :
    (st : State) (obj : ℕ)
    → let st' = surfaces_free_all st in
      (st'.session.surfaces ≡ [])
      × (st'.session.surfaces_count ≡ 0)
      × (st'.session.surfaces_bytes ≡ 0)
      × (given_back obj st'.kernel.vm_calls
          ≡ carriers obj st.session.surfaces + given_back obj st.kernel.vm_calls)
unfolding surfaces_free_all
surfaces_free_all-frees st obj = free_list-frees st.session.surfaces st obj refl
