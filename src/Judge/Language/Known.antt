-- ===== src/Judge/Language/Known.antt =====
-- The languages that the judge knows, KnownLanguages of judge/internal/language/language.go.
use runcodes.Prelude.{Bool, true, false, List, [], ◌∷◌, Text, codes}
use runcodes.Judge.Language.{Language}

abbrev language : Text → List Text → Bool → Text → Language
language name extensions compilable image_name = record {
  name = name;
  extensions = extensions;
  compilable = compilable;
  image_name = image_name;
}

abbrev pub known_languages : List Language
known_languages =
    language (codes "C") (codes "c" ∷ codes "h" ∷ []) true (codes "c")
    ∷ language (codes "C++")
        (codes "cpp" ∷ codes "cc" ∷ codes "cxx" ∷ codes "c++" ∷ codes "hpp" ∷ codes "h" ∷ []) true
        (codes "cpp")
    ∷ language (codes "C#") (codes "cs" ∷ []) true (codes "dotnet")
    ∷ language (codes "Fortran")
        (codes "f" ∷ codes "f90" ∷ codes "f95" ∷ codes "f15" ∷ codes "f03" ∷ []) true
        (codes "fortran")
    ∷ language (codes "Golang") (codes "go" ∷ []) true (codes "go")
    ∷ language (codes "Haskell") (codes "hs" ∷ codes "lhs" ∷ []) true (codes "haskell")
    ∷ language (codes "Java") (codes "java" ∷ codes "jar" ∷ codes "class" ∷ []) true (codes "java")
    ∷ language (codes "Octave") (codes "m" ∷ []) false (codes "octave")
    ∷ language (codes "Pascal") (codes "pas" ∷ codes "pp" ∷ codes "pascal" ∷ []) true
        (codes "pascal")
    ∷ language (codes "Portugol") (codes "por" ∷ []) true (codes "portugol")
    ∷ language (codes "Python") (codes "py" ∷ codes "py3" ∷ codes "pyc" ∷ []) false (codes "python")
    ∷ language (codes "R") (codes "r" ∷ []) false (codes "r")
    ∷ language (codes "Rust") (codes "rs" ∷ []) true (codes "rust")
    ∷ language (codes "Lua") (codes "lua" ∷ codes "lol" ∷ codes "lu" ∷ codes "luac" ∷ []) true
        (codes "lua")
    ∷ language (codes "Julia") (codes "jl" ∷ []) false (codes "julia")
    ∷ language (codes "Prolog") (codes "pl" ∷ codes "pro" ∷ codes "prolog" ∷ []) true
        (codes "prolog")
    ∷ language (codes "C (OpenMP)") (codes "omp.c" ∷ codes "omp.h" ∷ []) true (codes "c-omp")
    ∷ language (codes "C++ (OpenMP)")
        (codes "omp.cpp"
          ∷ codes "omp.cc"
          ∷ codes "omp.cxx"
          ∷ codes "omp.c++"
          ∷ codes "omp.hpp"
          ∷ codes "omp.h"
          ∷ [])
        true (codes "cpp-omp")
    ∷ language (codes "C (OpenMP + MPI)") (codes "mpi.c" ∷ codes "mpi.h" ∷ []) true
        (codes "c-omp-mpi")
    ∷ language (codes "C++ (OpenMP + MPI)")
        (codes "mpi.cpp"
          ∷ codes "mpi.cc"
          ∷ codes "mpi.cxx"
          ∷ codes "mpi.c++"
          ∷ codes "mpi.hpp"
          ∷ codes "mpi.h"
          ∷ [])
        true (codes "cpp-omp-mpi")
    ∷ language (codes "Verilog") (codes "v" ∷ codes "vh" ∷ []) false (codes "verilog")
    ∷ language (codes "Zig") (codes "zig" ∷ []) true (codes "zig")
    ∷ []
